-- ===== src/Frame/RoundTrip/Padding.antt =====
-- PADDING, whose reader takes every zero byte that follows, and STREAM without a length, whose
-- reader takes the rest of the packet.
use nxp.Prelude.{
  ℕ, zero, suc, ◌≤◌, ◌<◌, ◌^◌, ◌≡◌, refl, arith, List, [], ◌∷◌, ◌++◌, some, length,
  length-replicate, replicate, take, take_all,
}
use nxp.Prelude.Word.{IsU64}
use nxp.Codec.{put_data, source_bytes, run}
use nxp.Frame.Types.{Frame}
use nxp.Frame.Admitted.{NoZeroFirst}
use nxp.Frame.Encode.{write_padding}
use nxp.Frame.Decode.{decode, count_padding, read_padding}

abbrev zeros : ℕ → List ℕ
zeros n = replicate n 0

count_padding-none : (rest : List ℕ) → NoZeroFirst rest → count_padding rest ≡ (0, rest)
unfolding count_padding
count_padding-none [] h = refl
count_padding-none (b ∷ rest) h = ground arith

count_padding-replicate :
    (n : ℕ) (rest : List ℕ) → NoZeroFirst rest → count_padding (replicate n 0 ++ rest) ≡ (n, rest)
unfolding count_padding
count_padding-replicate zero rest h = count_padding-none rest h
count_padding-replicate (suc n) rest h = ground (arith, count_padding-replicate n rest h)

take-zeros : (n : ℕ) → take n (zeros n) ≡ zeros n
take-zeros n = take_all n (zeros n) (omega (arith, length-replicate {A = ℕ} n 0))

pub run-write_padding :
    (n : ℕ) (buf out : List ℕ)
    → IsU64 n
    → length buf < 2 ^ 63
    → run (write_padding n) buf ≡ some out
    → (out ≡ replicate n 0) × (0 < n) × (n ≤ length buf)
unfolding run write_padding put_data source_bytes
run-write_padding n buf out u fits h = ground (arith, take-zeros n)

pub decode-replicate :
    (n : ℕ) (rest : List ℕ)
    → 0 < n
    → NoZeroFirst rest
    → decode (replicate n 0 ++ rest) ≡ some (Frame.padding n, rest)
unfolding decode read_padding
decode-replicate zero rest h r = absurd (omega arith)
decode-replicate (suc n) rest h r = rw (count_padding-replicate (suc n) rest r)
