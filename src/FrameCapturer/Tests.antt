-- ===== src/FrameCapturer/Tests.antt =====
-- Samples of two packets, and the theorems at them.
use voice_backend.Common.{ℕ, ◌≡◌, refl, text, true, List, [], ◌∷◌, ◌++◌, none}
use voice_backend.FrameCapturer.{
  Sample, Event, packet, stop_called, run, new_frame_capturer, is_black_frame, Image,
}
use voice_backend.FrameCapturer.Rate.{Spaced, offered, selected, rate_of, run-Spaced}

abbrev sample : ℕ → ℕ → Sample
sample t b = record { now = t; bytes = b ∷ [] }

abbrev two_packets : List Event
two_packets =
    packet (record {
      mime_type = text "video/VP8";
      is_well_formed = true;
      popped = sample 10 2 ∷ sample 12 4 ∷ sample 15 6 ∷ [];
    })
    ∷ packet
        (record { mime_type = text "video/AV1"; is_well_formed = true; popped = sample 20 2 ∷ [] })
    ∷ []

run-Spaced_example :
    let cs = (run (new_frame_capturer 5) (two_packets ++ stop_called ∷ two_packets)).captured in
    (cs ≡ selected (rate_of 5) none (offered (two_packets ++ stop_called ∷ two_packets)))
    × Spaced (rate_of 5) none cs
run-Spaced_example = run-Spaced 5 (two_packets ++ stop_called ∷ two_packets)

abbrev black : Image
black = record {
  width = 640;
  height = 480;
  colour_at = λ x y. record { red = 0; green = 100; blue = 4096 };
}

black-is_black_frame : is_black_frame black ≡ true
unfolding is_black_frame
black-is_black_frame = refl
