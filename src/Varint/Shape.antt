-- ===== src/Varint/Shape.antt =====
-- When the codec succeeds, and the shape of what it writes and reads.
use nxp.Prelude.{
  ℕ, ◌%◌, ◌≤◌, ◌<◌, ◌≡◌, arith, List, [], ◌∷◌, Option, none, some, length, All, Bool, true, false,
  if◌then◌else◌, ◌≢◌, leb, ltb, inl, inr, Option-cases,
}
use nxp.Prelude.Bits.{mask_8}
use nxp.Prelude.Word.{IsByte, u8_mod}
use Prim.Native.Nat.{bit_and}
use nxp.Varint.{encode, varint_len, varint_max, head_byte, low_byte}
use nxp.Varint.Bytes.{low_byte_lem}

-- `encode` writes as many bytes as `nxp_varint_len` says, and they fit the buffer.
pub length-encode :
    (v n : ℕ) (out : List ℕ)
    → encode v n ≡ some out
    → (v ≤ varint_max) × (length out ≡ varint_len v) × (length out ≤ n) × (0 < length out)
unfolding encode varint_len
length-encode v n out h = ground arith

-- It fails only on a number above the maximum, or on a buffer that is too short for it.
pub encode_total :
    (v n : ℕ) → v ≤ varint_max → varint_len v ≤ n → (out : List ℕ) × (encode v n ≡ some out)
encode_total v n h hn = elim (Option-cases (encode v n)) [
  | inl e ↦ absurd (refused v n h hn e)
  | inr found ↦ found
]
  where
    refused : (v n : ℕ) → v ≤ varint_max → varint_len v ≤ n → encode v n ≢ none
    refused v n h hn = unfold encode varint_len in ground arith

pub encode_small : (v n : ℕ) (out : List ℕ) → v ≤ 63 → encode v n ≡ some out → out ≡ v ∷ []
unfolding encode
encode_small v n out h e = ground arith

OptAll : Option (List ℕ) → Type 0
OptAll none = Unit {0}
OptAll (some bytes) = All IsByte bytes

OptAll-if : (b : Bool) (x y : Option (List ℕ)) → OptAll x → OptAll y → OptAll (if b then x else y)
unfolding OptAll
OptAll-if true x y hx hy = hx
OptAll-if false x y hx hy = hy

low_byte-IsByte : (v k : ℕ) → IsByte (low_byte v k)
low_byte-IsByte v k = omega (arith, low_byte_lem v k)

head_byte-IsByte : (mark v k : ℕ) → IsByte (head_byte mark v k)
unfolding head_byte
head_byte-IsByte mark v k = omega arith

last-IsByte : (v : ℕ) → IsByte (bit_and v 0xff)
last-IsByte v = omega (arith, mask_8 v)

none-OptAll : OptAll none
unfolding OptAll
none-OptAll = tt

short-OptAll :
    (b : Bool) (bytes : List ℕ) → All IsByte bytes → OptAll (if b then none else some bytes)
unfolding OptAll
short-OptAll true bytes h = tt
short-OptAll false bytes h = h

encode-OptAll : (v n : ℕ) → OptAll (encode v n)
unfolding encode
encode-OptAll v n =
    let low = low_byte-IsByte v in
    let last = last-IsByte v in
    OptAll-if (leb v 63) _ _ (short-OptAll (ltb n 1) ((v % u8_mod) ∷ []) (omega arith, tt)) (
      OptAll-if (leb v 16383) _ _
        (short-OptAll (ltb n 2) (head_byte 0x40 v 8 ∷ bit_and v 0xff ∷ [])
          (head_byte-IsByte 0x40 v 8, (last, tt)))
        (OptAll-if (leb v 1073741823) _ _
          (short-OptAll (ltb n 4)
            (head_byte 0x80 v 24 ∷ low_byte v 16 ∷ low_byte v 8 ∷ bit_and v 0xff ∷ [])
            (head_byte-IsByte 0x80 v 24, (low 16, (low 8, (last, tt)))))
          (OptAll-if (leb v varint_max) _ _
            (short-OptAll (ltb n 8)
              (head_byte 0xc0 v 56
                ∷ low_byte v 48
                ∷ low_byte v 40
                ∷ low_byte v 32
                ∷ low_byte v 24
                ∷ low_byte v 16
                ∷ low_byte v 8
                ∷ bit_and v 0xff
                ∷ [])
              (
                head_byte-IsByte 0xc0 v 56,
                (low 48, (low 40, (low 32, (low 24, (low 16, (low 8, (last, tt))))))),
              ))
            none-OptAll)))

pub encode-IsByte : (v n : ℕ) (out : List ℕ) → encode v n ≡ some out → All IsByte out
unfolding OptAll
encode-IsByte v n out e = rw e at (encode-OptAll v n)
