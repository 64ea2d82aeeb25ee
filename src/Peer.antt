-- ===== src/Peer.antt =====
-- internal/realtime/peer.go and opus.go: the numbers of the outgoing RTP packets, the choice of a video track,
-- and the duration of an opus packet. The peer connection, the marshalling of packets and the reading
-- loops are calls of the WebRTC library. `samples` is not negative.
pub mod Packets
pub mod Opus
pub mod Tracks
mod Tests
use voice_backend.Common.{
  ℕ, ◌+◌, ◌%◌, Text, text, Bool, not, ◌&&◌, ◌||◌, List, [], ◌∷◌, ◌++◌, Option, none, some, ◌==◌,
  if◌then◌else◌,
}
use voice_backend.Common.Map.{is_some}

pub record Peer : Type 0 where
  pub seq : ℕ  -- uint16
  pub timestamp : ℕ  -- uint32
  pub ssrc : ℕ
  pub video_track : Option Text  -- the stream id of the track
  pub video_track_kind : Text
  pub readers : List Text  -- the goroutines `readIncomingVideo`, which end with their tracks only

unfoldable pub new_peer : ℕ → Peer
new_peer ssrc = record {
  seq = 0;
  timestamp = 0;
  ssrc = ssrc;
  video_track = none;
  video_track_kind = [];
  readers = [];
}

pub record Packet : Type 0 where
  pub sequence_number : ℕ
  pub timestamp : ℕ
  pub ssrc : ℕ
  pub payload : Text

-- A frame is its bytes and the number of its samples.
pub record Frame : Type 0 where
  pub opus_data : Text
  pub samples : ℕ

unfoldable pub write_rtp : Frame → Peer → Peer × Packet
write_rtp f p = (
  record p { seq = (p.seq + 1) % 65536; timestamp = (p.timestamp + f.samples) % 4294967296 },
  record { sequence_number = p.seq; timestamp = p.timestamp; ssrc = p.ssrc; payload = f.opus_data },
)

-- The packets of frames that are written one after the other.
unfoldable pub write_all : List Frame → Peer → List Packet
unfolding write_rtp
write_all [] p = []
write_all (f ∷ fs) p = (write_rtp f p).1 ∷ write_all fs (write_rtp f p).0

unfoldable pub is_screen_share : Text → Bool
is_screen_share stream =
    stream == text "screen" || stream == text "display" || stream == text "screenshare"

unfoldable pub should_replace : Text → Peer → Bool
unfolding is_screen_share
should_replace stream p =
    not (is_some p.video_track)
    || (is_screen_share stream && not (p.video_track_kind == text "screen"))
    || (not (is_screen_share stream) && p.video_track_kind == [])

unfoldable pub handle_video_track : Text → Peer → Peer
unfolding should_replace
handle_video_track stream p =
    if should_replace stream p
    then record p {
      video_track = some stream;
      video_track_kind = if is_screen_share stream then text "screen" else text "camera";
      readers = p.readers ++ stream ∷ [];
    }
    else p

unfoldable pub handle_video_tracks : List Text → Peer → Peer
unfolding handle_video_track
handle_video_tracks [] p = p
handle_video_tracks (t ∷ ts) p = handle_video_tracks ts (handle_video_track t p)
