-- ===== src/FrameCapturer.antt =====
-- internal/vision/capturer.go: which of the frames of a video are stored. The sample builder of the package pion is third-party
-- code: with a packet comes what `Pop` gives after it, each sample with the instant at which the loop looks at
-- it. The decoder, the encoder and the image are parameters. A goroutine `processFrame` is one step.
pub mod Rate
mod Tests
use voice_backend.Common.{
  ℕ, zero, suc, ◌+◌, ◌-◌, ◌*◌, ◌/◌, ◌%◌, Text, text, Bool, true, false, not, ◌&&◌, ◌||◌, List, [],
  ◌∷◌, ◌++◌, Option, none, some, ◌==◌, ◌=ℕ◌, ltb, if◌then◌else◌,
}

pub record Sample : Type 0 where
  pub now : ℕ
  pub bytes : Text

pub record Captured : Type 0 where
  pub instant : ℕ
  pub bytes : Text
  pub mime_type : Text

pub record FrameCapturer : Type 0 where
  pub capture_rate : ℕ
  pub builder : Option Text  -- the sample builder, by the codec that it was created for
  pub mime_type : Text
  pub last_capture : Option ℕ  -- `none` is the zero time, which is longer ago than any rate
  pub stopped : Bool
  pub captured : List Captured  -- the frames that were handed to `processFrame`, in order

unfoldable pub new_frame_capturer : ℕ → FrameCapturer
new_frame_capturer rate = record {
  capture_rate = if rate =ℕ 0 then 2000000000 else rate;
  builder = none;
  mime_type = [];
  last_capture = none;
  stopped = false;
  captured = [];
}

unfoldable pub create_sample_builder : Text → Option Text
create_sample_builder m =
    if m == text "video/VP8" || m == text "video/VP9" || m == text "video/H264"
    then some m
    else none

-- `len(sample.Data) > 0 && (sample.Data[0]&0x01) == 0`.
unfoldable pub is_keyframe : Text → Bool
is_keyframe [] = false
is_keyframe (b ∷ rest) = b % 2 =ℕ 0

-- `now.Sub(c.lastCapture) < c.captureRate`.
unfoldable pub is_too_soon : ℕ → Option ℕ → ℕ → Bool
is_too_soon now none rate = false
is_too_soon now (some last) rate = ltb now (last + rate)

-- One round of the loop over the samples.
unfoldable pub capture : Text → Sample → FrameCapturer → FrameCapturer
unfolding is_keyframe is_too_soon
capture mime s c =
    if not (is_keyframe s.bytes)
    then c
    else if is_too_soon s.now c.last_capture c.capture_rate
    then c
    else record c {
      last_capture = some s.now;
      captured = c.captured ++ record { instant = s.now; bytes = s.bytes; mime_type = mime } ∷ [];
    }

unfoldable pub capture_all : Text → List Sample → FrameCapturer → FrameCapturer
unfolding capture
capture_all mime [] c = c
capture_all mime (s ∷ ss) c = capture_all mime ss (capture mime s c)

pub record RtpPacket : Type 0 where
  pub mime_type : Text
  pub is_well_formed : Bool
  pub popped : List Sample

abbrev pub is_same_codec : Option Text → Text → Text → Bool
is_same_codec none current m = false
is_same_codec (some b) current m = current == m

-- The builder for a packet, which is created anew if the codec changes.
unfoldable pub prepared : RtpPacket → FrameCapturer → FrameCapturer
unfolding create_sample_builder
prepared p c =
    if is_same_codec c.builder c.mime_type p.mime_type
    then c
    else record c { mime_type = p.mime_type; builder = create_sample_builder p.mime_type }

abbrev pub capture_with : Option Text → RtpPacket → FrameCapturer → FrameCapturer
unfolding capture_all
capture_with none p c = c
capture_with (some b) p c = if p.is_well_formed then capture_all p.mime_type p.popped c else c

unfoldable pub handle_rtp_packet : RtpPacket → FrameCapturer → FrameCapturer
unfolding prepared capture_with
handle_rtp_packet p c =
    if c.stopped then c else capture_with (prepared p c).builder p (prepared p c)

unfoldable pub stop : FrameCapturer → FrameCapturer
stop c = record c { stopped = true }

pub data Event : Type 0 where
  packet : RtpPacket → Event
  stop_called : Event

unfoldable pub step : FrameCapturer → Event → FrameCapturer
unfolding handle_rtp_packet stop
step c (packet p) = handle_rtp_packet p c
step c stop_called = stop c

unfoldable pub run : FrameCapturer → List Event → FrameCapturer
unfolding step
run c [] = c
run c (e ∷ es) = run (step c e) es

pub record Colour : Type 0 where
  pub red : ℕ
  pub green : ℕ
  pub blue : ℕ

pub record Image : Type 0 where
  pub width : ℕ
  pub height : ℕ
  pub colour_at : ℕ → ℕ → Colour

unfoldable pub is_bright : Colour → Bool
is_bright c = ltb 4096 c.red || ltb 4096 c.green || ltb 4096 c.blue

-- The inner loop: `n` points from `x` on, ten apart.
unfoldable pub bright_in_row : ℕ → (ℕ → Colour) → ℕ → ℕ
unfolding is_bright
bright_in_row zero row x = 0
bright_in_row (suc n) row x = (if is_bright (row x) then 1 else 0) + bright_in_row n row (x + 10)

unfoldable pub bright_in_rows : ℕ → ℕ → Image → ℕ → ℕ
unfolding bright_in_row
bright_in_rows zero n img y = 0
bright_in_rows (suc m) n img y =
    bright_in_row n (λ x. img.colour_at x y) 0 + bright_in_rows m n img (y + 10)

-- How many of 0, 10, 20, … are below a bound.
abbrev pub tens_below : ℕ → ℕ
tens_below n = (n + 9) / 10

-- The image begins at 0; the quotient of the source is below 0.05 exactly if 20 times the bright points are fewer
-- than all.
unfoldable pub is_black_frame : Image → Bool
unfolding bright_in_rows
is_black_frame img =
    let samples = tens_below img.height * tens_below img.width in
    samples =ℕ 0
    || ltb (bright_in_rows (tens_below img.height) (tens_below img.width) img 0 * 20) samples

pub record Frame : Type 0 where
  pub timestamp : ℕ
  pub bytes : Text
  pub frame_width : ℕ
  pub frame_height : ℕ

abbrev pub encoded : Image → ℕ → Option Text → Option Frame
encoded img t none = none
encoded img t (some bytes) =
    some
      (record { timestamp = t; bytes = bytes; frame_width = img.width; frame_height = img.height })

abbrev pub decoded : (Image → Option Text) → ℕ → Option Image → Option Frame
unfolding is_black_frame
decoded encode t none = none
decoded encode t (some img) = if is_black_frame img then none else encoded img t (encode img)

-- `processFrame`: the frame that is stored, if any. The timestamp is in milliseconds.
unfoldable pub process_frame :
    (Text → Text → Option Image) → (Image → Option Text) → Bool → Captured → Option Frame
unfolding decoded
process_frame decode encode has_decoder c =
    let t = c.instant / 1000000 in
    if has_decoder
    then decoded encode t (decode c.bytes c.mime_type)
    else some (record { timestamp = t; bytes = c.bytes; frame_width = 0; frame_height = 0 })
