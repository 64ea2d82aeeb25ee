-- ===== src/Peer/Packets.antt =====
-- The numbers of the RTP packets.
use voice_backend.Common.{
  ℕ, zero, suc, ◌+◌, ◌%◌, ◌≤◌, ◌<◌, ◌≡◌, ◌≢◌, refl, List, [], ◌∷◌, Option, none, some, arith,
}
use voice_backend.Peer.{Peer, new_peer, Packet, Frame, write_rtp, write_all}

-- Packets numbered with counters that do not wrap, cut to 16 and 32 bits.
abbrev pub numbered : ℕ → ℕ → ℕ → List Frame → List Packet
numbered ssrc n t [] = []
numbered ssrc n t (f ∷ fs) =
    record {
      sequence_number = n % 65536;
      timestamp = t % 4294967296;
      ssrc = ssrc;
      payload = f.opus_data;
    }
    ∷ numbered ssrc (n + 1) (t + f.samples) fs

write_all-numbered_from :
    (n t : ℕ) (fs : List Frame) (p : Peer)
    → p.seq ≡ n % 65536
    → p.timestamp ≡ t % 4294967296
    → write_all fs p ≡ numbered p.ssrc n t fs
unfolding write_all write_rtp
write_all-numbered_from n t [] p s e = refl
write_all-numbered_from n t (f ∷ fs) p s e = ground (
  arith,
  s,
  e,
  write_all-numbered_from (n + 1) (t + f.samples) fs (write_rtp f p).0 (omega (arith, s))
      (omega (arith, e)),
)

abbrev pub get_elem? {ℓ} : {A : Type ℓ} → List A → ℕ → Option A
get_elem? [] i = none
get_elem? (x ∷ xs) zero = some x
get_elem? (x ∷ xs) (suc i) = get_elem? xs i

abbrev pub sequence_of : Option Packet → Option ℕ
sequence_of none = none
sequence_of (some p) = some p.sequence_number

numbered-get :
    (ssrc n t : ℕ) (fs : List Frame) (i : ℕ) {q : Packet}
    → get_elem? (numbered ssrc n t fs) i ≡ some q
    → q.sequence_number ≡ (n + i) % 65536
numbered-get ssrc n t [] i h = cc
numbered-get ssrc n t (f ∷ fs) zero h = ground (arith, h)
numbered-get ssrc n t (f ∷ fs) (suc i) h =
    omega (arith, numbered-get ssrc (n + 1) (t + f.samples) fs i h)

-- The frames of a fresh peer go out in order, with sequence numbers that count up from 0 modulo 2^16 and timestamps
-- that are the samples before the frame modulo 2^32; and two packets fewer than 65,536 apart have different
-- sequence numbers.
pub write_all-numbered :
    (ssrc : ℕ) (fs : List Frame) (i d : ℕ) {q r : Packet}
    → get_elem? (write_all fs (new_peer ssrc)) i ≡ some q
    → get_elem? (write_all fs (new_peer ssrc)) (i + d) ≡ some r
    → 1 ≤ d
    → d < 65536
    → (write_all fs (new_peer ssrc) ≡ numbered ssrc 0 0 fs)
      × (q.sequence_number ≢ r.sequence_number)
unfolding new_peer
write_all-numbered ssrc fs i d hq hr pos small =
    let same = write_all-numbered_from 0 0 fs (new_peer ssrc) refl refl in
    (
      same,
      λ e. omega (
        arith,
        e,
        numbered-get ssrc 0 0 fs i (rw same at hq),
        numbered-get ssrc 0 0 fs (i + d) (rw same at hr),
      ),
    )
