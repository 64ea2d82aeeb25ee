-- ===== src/Peer/Opus.antt =====
-- internal/realtime/opus.go: the duration of an opus packet. The table is in tenths of a millisecond, since its
-- entries are multiples of 2.5 ms; the products of the source are exact in float64, so the cut to an integer
-- is a division.
use voice_backend.Common.{
  ℕ, zero, suc, ◌*◌, ◌/◌, ◌%◌, ◌^◌, ◌≤◌, ◌<◌, ◌≡◌, refl, ap, sym, ltb, Text, Bool, true, ◌&&◌, List,
  [], ◌∷◌, ◌=ℕ◌, leb, if◌then◌else◌, arith,
}

-- `frameDurationsMs`.
unfoldable pub frame_durations : List ℕ
frame_durations =
    100 ∷ 200 ∷ 400 ∷ 600 ∷ 100 ∷ 200 ∷ 400 ∷ 600 ∷ 100 ∷ 200 ∷ 400 ∷ 600 ∷ 100 ∷ 200 ∷ 100 ∷ 200
    ∷ 25 ∷ 50 ∷ 100 ∷ 200 ∷ 25 ∷ 50 ∷ 100 ∷ 200 ∷ 25 ∷ 50 ∷ 100 ∷ 200 ∷ 25 ∷ 50 ∷ 100 ∷ 200 ∷ []

abbrev pub get_or : List ℕ → ℕ → ℕ → ℕ
get_or [] i d = d
get_or (x ∷ xs) zero d = x
get_or (x ∷ xs) (suc i) d = get_or xs i d

-- The duration of one frame, by the first byte.
unfoldable pub frame_duration : ℕ → ℕ
unfolding frame_durations
frame_duration toc = get_or frame_durations (toc / 8 % 32) 0

abbrev pub at_least_one : ℕ → ℕ
at_least_one n = if n =ℕ 0 then 1 else n

-- The number of frames of code 3 is in the second byte.
abbrev pub counted_frames : List ℕ → ℕ
counted_frames [] = 1
counted_frames (b ∷ rest) = at_least_one (b % 64)

unfoldable pub frame_count : ℕ → List ℕ → ℕ
frame_count toc rest = if toc % 4 =ℕ 0 then 1 else if toc % 4 =ℕ 3 then counted_frames rest else 2

pub record PacketDuration : Type 0 where
  pub samples : ℕ
  pub nanoseconds : ℕ

unfoldable pub opus_packet_duration : Text → ℕ → PacketDuration
unfolding frame_duration frame_count
opus_packet_duration [] rate = record { samples = 960; nanoseconds = 20000000 }
opus_packet_duration (toc ∷ rest) rate =
    let total = frame_duration toc * frame_count toc rest in
    record { samples = total * rate / 10000; nanoseconds = total * 100000 }

-- The reference: samples of one frame at 48 kHz by the modes of RFC 6716, table 2. From 128 on the frame is of CELT
-- and lasts 2.5 ms times a power of two; 96 to 127 are the hybrid modes, of 10 or 20 ms; below, SILK has
-- 10, 20, 40 and 60 ms.
abbrev pub samples_per_frame : ℕ → ℕ
samples_per_frame toc =
    let size = toc / 8 % 4 in
    if leb 128 toc
    then 120 * 2 ^ size
    else if leb 96 toc
    then (if toc / 8 % 2 =ℕ 1 then 960 else 480)
    else if size =ℕ 3
    then 2880
    else 480 * 2 ^ size

abbrev agrees : ℕ → Bool
agrees toc =
    frame_duration toc * 24 =ℕ 5 * samples_per_frame toc
    && leb 25 (frame_duration toc)
    && leb (frame_duration toc) 600

agree_up_to : ℕ → Bool
agree_up_to zero = true
agree_up_to (suc toc) = agree_up_to toc && agrees toc

agrees-up_to : (bound toc : ℕ) → toc < bound → agree_up_to bound ≡ true → agrees toc ≡ true
unfolding agree_up_to
agrees-up_to zero toc small all = absurd (omega arith)
agrees-up_to (suc last) toc small all = ground (arith, agrees-up_to last toc)

all_bytes : agree_up_to 256 ≡ true
unfolding agree_up_to frame_duration frame_durations
all_bytes = refl

frame_duration-samples :
    (toc : ℕ)
    → toc < 256
    → (frame_duration toc * 24 ≡ 5 * samples_per_frame toc)
      × (25 ≤ frame_duration toc)
      × (frame_duration toc ≤ 600)
frame_duration-samples toc h =
    let checked : agrees toc ≡ true = agrees-up_to 256 toc h all_bytes in
    (ground (arith, checked), ground (arith, checked), ground (arith, checked))

-- The reference: frames of a packet by its code, RFC 6716, section 3.2. The number of code 3 is in the six low
-- bits of the second byte; a packet without one, or with the number 0, has no meaning there and is taken for
-- one frame.
abbrev pub frames_of_code : ℕ → List ℕ → ℕ
frames_of_code zero rest = 1
frames_of_code (suc zero) rest = 2
frames_of_code (suc (suc zero)) rest = 2
frames_of_code (suc (suc (suc n))) [] = 1
frames_of_code (suc (suc (suc n))) (b ∷ rest) = if ltb 0 (b % 64) then b % 64 else 1

frame_count-code :
    (code : ℕ) (rest : List ℕ)
    → code < 4
    → (if code =ℕ 0 then 1 else if code =ℕ 3 then counted_frames rest else 2)
      ≡ frames_of_code code rest
frame_count-code zero rest h = refl
frame_count-code (suc zero) rest h = refl
frame_count-code (suc (suc zero)) rest h = refl
frame_count-code (suc (suc (suc zero))) [] h = refl
frame_count-code (suc (suc (suc zero))) (b ∷ rest) h = ground arith
frame_count-code (suc (suc (suc (suc n)))) rest h = absurd (omega arith)

frame_count-frames :
    (toc : ℕ) (rest : List ℕ) → frame_count toc rest ≡ frames_of_code (toc % 4) rest
unfolding frame_count
frame_count-frames toc rest = frame_count-code (toc % 4) rest (omega arith)

frame_count_bounds :
    (toc : ℕ) (rest : List ℕ) → (1 ≤ frame_count toc rest) × (frame_count toc rest ≤ 63)
unfolding frame_count
frame_count_bounds toc [] = ground arith
frame_count_bounds toc (b ∷ rest) = ground arith

product_samples :
    (tenths count size : ℕ)
    → (tenths * 24 ≡ 5 * size) × (25 ≤ tenths) × (tenths ≤ 600)
    → (1 ≤ count) × (count ≤ 63)
    → let samples = tenths * count * 48000 / 10000 in
      (samples ≡ count * size)
      × (tenths * count * 100000 * 48 ≡ samples * 1000000)
      × (120 ≤ samples)
      × (samples ≤ 181440)
product_samples tenths count size (e, low, high) (some_frame, few) =
    let even : 24 * (tenths * count) ≡ 5 * (count * size) =
      omega (arith, ap (λ (t : ℕ). t * count) e) in
    let least : 25 ≤ tenths * count = grind arith in
    let most : tenths * count ≤ 37800 = grind arith in
    (omega arith, omega arith, omega arith, omega arith)

-- At 48 kHz, for every packet whose first byte is a byte: the samples are the number of its frames times the samples of one,
-- both as RFC 6716 has them, where a packet of code 3 without a number of frames counts as one frame; the duration in nanoseconds is exactly that of these samples; and a packet has from 120 to 181,440 samples.
pub opus_packet_duration-samples :
    (toc : ℕ) (rest : List ℕ)
    → toc < 256
    → let d = opus_packet_duration (toc ∷ rest) 48000 in
      (d.samples ≡ frames_of_code (toc % 4) rest * samples_per_frame toc)
      × (d.nanoseconds * 48 ≡ d.samples * 1000000)
      × (120 ≤ d.samples)
      × (d.samples ≤ 181440)
unfolding opus_packet_duration
opus_packet_duration-samples toc rest h = rw (sym (frame_count-frames toc rest)) (
    product_samples (frame_duration toc) (frame_count toc rest) (samples_per_frame toc)
      (frame_duration-samples toc h) (frame_count_bounds toc rest))
