-- ===== src/Peer/Tests.antt =====
-- Packets and tracks of one peer, and the theorems at them.
use voice_backend.Common.{
  ℕ, ◌*◌, ◌%◌, ◌≤◌, ◌≡◌, ◌≢◌, refl, text, Text, Text-discrete, List, [], ◌∷◌, arith,
}
use voice_backend.Peer.{Packet, Frame, new_peer, write_all, handle_video_tracks}
use voice_backend.Peer.Packets.{numbered, write_all-numbered}
use voice_backend.Peer.Opus.{
  opus_packet_duration, frames_of_code, samples_per_frame, opus_packet_duration-samples,
}
use voice_backend.Peer.Tracks.{selected, opened, handle_video_tracks-selected}

abbrev frame : ℕ → Frame
frame n = record { opus_data = n ∷ []; samples = 960 }

abbrev frames : List Frame
frames = frame 1 ∷ frame 2 ∷ frame 3 ∷ []

abbrev packet : ℕ → ℕ → ℕ → Packet
packet n t d = record { sequence_number = n; timestamp = t; ssrc = 7; payload = d ∷ [] }

write_all-numbered_example :
    (write_all frames (new_peer 7) ≡ numbered 7 0 0 frames)
    × ((packet 0 0 1).sequence_number ≢ (packet 2 1920 3).sequence_number)
unfolding write_all new_peer
write_all-numbered_example =
    write_all-numbered 7 frames 0 2 {q = packet 0 0 1} {r = packet 2 1920 3} refl refl (omega arith)
      (omega arith)

-- Three CELT frames of 20 ms.
opus_packet_duration-samples_example :
    let d = opus_packet_duration (255 ∷ 3 ∷ []) 48000 in
    (d.samples ≡ frames_of_code (255 % 4) (3 ∷ []) * samples_per_frame 255)
    × (d.nanoseconds * 48 ≡ d.samples * 1000000)
    × (120 ≤ d.samples)
    × (d.samples ≤ 181440)
opus_packet_duration-samples_example = opus_packet_duration-samples 255 (3 ∷ []) (omega arith)

three_frames : (opus_packet_duration (255 ∷ 3 ∷ []) 48000).samples ≡ 2880
unfolding opus_packet_duration
three_frames = refl

abbrev tracks : List Text
tracks = text "cam" ∷ text "cam2" ∷ text "screen" ∷ text "display" ∷ []

handle_video_tracks-selected_example :
    let p = handle_video_tracks tracks (new_peer 7) in
    (p.video_track ≡ selected tracks) × (p.readers ≡ opened tracks)
handle_video_tracks-selected_example = handle_video_tracks-selected 7 tracks

both_read : (handle_video_tracks tracks (new_peer 7)).readers ≡ text "cam" ∷ text "screen" ∷ []
unfolding handle_video_tracks new_peer Text-discrete
both_read = refl
