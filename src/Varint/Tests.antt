-- ===== src/Varint/Tests.antt =====
-- Runs of the codec, and its theorems at concrete inputs.
use nxp.Prelude.{ℕ, ◌≡◌, refl, arith, inr, List, [], ◌∷◌, ◌++◌, some, none, length, All}
use nxp.Prelude.Word.{IsByte}
use nxp.Varint.{encode, decode, decode_2, decode_8, head_byte, low_byte, varint_len, varint_max}
use nxp.Varint.Correct.{decode-encode_total, encode_refuses}

encode_494878333 : encode 494878333 8 ≡ some (0x9d ∷ 0x7f ∷ 0x3e ∷ 0x7d ∷ [])
unfolding encode head_byte low_byte
encode_494878333 = refl

encode_15293 : encode 15293 8 ≡ some (0x7b ∷ 0xbd ∷ [])
unfolding encode head_byte low_byte
encode_15293 = refl

decode_max :
    decode (0xff ∷ 0xff ∷ 0xff ∷ 0xff ∷ 0xff ∷ 0xff ∷ 0xff ∷ 0xff ∷ 7 ∷ [])
    ≡ some (varint_max, 7 ∷ [])
unfolding decode decode_8
decode_max = refl

-- A number in a longer form than needed is read all the same.
decode_padded : decode (0x40 ∷ 0x25 ∷ []) ≡ some (37, [])
unfolding decode decode_2
decode_padded = refl

decode-encode_total_example :
    (out : List ℕ) × (encode 15293 2 ≡ some out)
    × (length out ≡ varint_len 15293)
    × All IsByte out
    × (decode (out ++ 9 ∷ []) ≡ some (15293, 9 ∷ []))
unfolding varint_len
decode-encode_total_example = decode-encode_total 15293 2 (9 ∷ []) (omega arith) (omega arith)

encode_refuses_example : encode 16384 3 ≡ none
unfolding varint_len
encode_refuses_example = encode_refuses 16384 3 (inr (omega arith))
