-- ===== src/Varint.antt =====
-- Variable-length integers: src/util/varint.c and src/util/varint.h.
-- A buffer is the list of its bytes. A function that returns 0 for an error returns `none` here.
-- `encode` gives the bytes that the C function stores from `buf[0]` on (their number is what it
-- returns); `decode` gives the value with the bytes behind it (what it returns is the number of
-- bytes in front of those).
pub mod Bytes
pub mod Extent
pub mod Correct
mod Tests
pub mod RoundTrip
pub mod Shape
use nxp.Prelude.{ℕ, ◌%◌, ◌-◌, ◌^◌, List, [], ◌∷◌, Option, none, some, leb, ltb, if◌then◌else◌, ◌==◌}
use nxp.Prelude.Bits.{shr, shl}
use nxp.Prelude.Word.{u8_mod}
use Prim.Native.Nat.{bit_and, bit_or}

-- `NXP_VARINT_MAX`
abbrev pub varint_max : ℕ
varint_max = 4611686018427387903

-- `(uint8_t)(mark | (value >> k))`, the first byte.
unfoldable pub head_byte : ℕ → ℕ → ℕ → ℕ
head_byte mark value k = bit_or mark (shr value k) % u8_mod

-- `(uint8_t)((value >> k) & 0xFF)`
unfoldable pub low_byte : ℕ → ℕ → ℕ
low_byte value k = bit_and (shr value k) 0xff

unfoldable pub encode : ℕ → ℕ → Option (List ℕ)
encode value buf_len =
    if leb value 63
    then (if ltb buf_len 1 then none else some ((value % u8_mod) ∷ []))
    else if leb value 16383
    then (if ltb buf_len 2 then none else some (head_byte 0x40 value 8 ∷ bit_and value 0xff ∷ []))
    else if leb value 1073741823
    then (if ltb buf_len 4
        then none
        else some (
            head_byte 0x80 value 24
            ∷ low_byte value 16
            ∷ low_byte value 8
            ∷ bit_and value 0xff
            ∷ []))
    else if leb value varint_max
    then (if ltb buf_len 8
        then none
        else some (
            head_byte 0xc0 value 56
            ∷ low_byte value 48
            ∷ low_byte value 40
            ∷ low_byte value 32
            ∷ low_byte value 24
            ∷ low_byte value 16
            ∷ low_byte value 8
            ∷ bit_and value 0xff
            ∷ []))
    else none

-- The four cases of the switch; a list that is too short is `buf_len` below the case's length.
unfoldable pub decode_2 : ℕ → List ℕ → Option (ℕ × List ℕ)
decode_2 b0 (b1 ∷ rest) = some (bit_or (shl (bit_and b0 0x3f) 8) b1, rest)
decode_2 b0 [] = none

unfoldable pub decode_4 : ℕ → List ℕ → Option (ℕ × List ℕ)
decode_4 b0 (b1 ∷ b2 ∷ b3 ∷ rest) =
    some (bit_or (bit_or (bit_or (shl (bit_and b0 0x3f) 24) (shl b1 16)) (shl b2 8)) b3, rest)
decode_4 b0 _ = none

unfoldable pub decode_8 : ℕ → List ℕ → Option (ℕ × List ℕ)
decode_8 b0 (b1 ∷ b2 ∷ b3 ∷ b4 ∷ b5 ∷ b6 ∷ b7 ∷ rest) = some (
  bit_or
      (bit_or
        (bit_or
          (bit_or
            (bit_or (bit_or (bit_or (shl (bit_and b0 0x3f) 56) (shl b1 48)) (shl b2 40))
              (shl b3 32))
            (shl b4 24))
          (shl b5 16))
        (shl b6 8))
      b7,
  rest,
)
decode_8 b0 _ = none

unfoldable pub decode : List ℕ → Option (ℕ × List ℕ)
decode [] = none
decode (b0 ∷ rest) =
    let prefix = shr b0 6 in
    if prefix == 0
    then some (bit_and b0 0x3f, rest)
    else if prefix == 1
    then decode_2 b0 rest
    else if prefix == 2
    then decode_4 b0 rest
    else if prefix == 3
    then decode_8 b0 rest
    else none

-- `nxp_varint_len`
unfoldable pub varint_len : ℕ → ℕ
varint_len value =
    if leb value 63
    then 1
    else if leb value 16383
    then 2
    else if leb value 1073741823
    then 4
    else if leb value varint_max
    then 8
    else 0
