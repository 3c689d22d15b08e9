-- ===== src/Varint/Correct.antt =====
-- The codec on every number and every buffer length.
use nxp.Prelude.{ℕ, ◌≤◌, ◌<◌, ◌≡◌, arith, ◌⊎◌, inl, inr, List, ◌++◌, some, none, length, All}
use nxp.Prelude.Word.{IsByte}
use nxp.Varint.{encode, decode, varint_len, varint_max}
use nxp.Varint.Shape.{length-encode, encode_total, encode-IsByte}
use nxp.Varint.RoundTrip.{decode-encode}

-- A number of at most 2^62 - 1, in a buffer of at least `nxp_varint_len` bytes, is written as exactly
-- that many bytes, and from those, in front of anything, `nxp_varint_decode` reads it back.
pub decode-encode_total :
    (v n : ℕ) (rest : List ℕ)
    → v ≤ varint_max
    → varint_len v ≤ n
    → (out : List ℕ) × (encode v n ≡ some out)
      × (length out ≡ varint_len v)
      × All IsByte out
      × (decode (out ++ rest) ≡ some (v, rest))
decode-encode_total v n rest small room =
    let (out, e) = encode_total v n small room in
    let (a, len, b, c) = length-encode v n out e in
    (out, e, len, encode-IsByte v n out e, decode-encode v n out rest e)

-- `nxp_varint_encode` returns 0 for a number above 2^62 - 1, and for a number that is longer (by
-- `nxp_varint_len`) than the buffer.
pub encode_refuses : (v n : ℕ) → (varint_max < v) ⊎ (n < varint_len v) → encode v n ≡ none
unfolding encode varint_len
encode_refuses v n (inl h) = ground arith
encode_refuses v n (inr h) = ground arith
