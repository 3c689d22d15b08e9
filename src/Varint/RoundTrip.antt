-- ===== src/Varint/RoundTrip.antt =====
-- Decoding what was encoded.
use nxp.Prelude.{ℕ, ◌+◌, ◌*◌, ◌/◌, ◌%◌, ◌^◌, ◌<◌, ◌≤◌, ◌≡◌, refl, arith, List, ◌∷◌, ◌++◌, some}
use nxp.Prelude.Bits.{mask_6, mask_8}
use nxp.Varint.{head_byte, low_byte, encode, decode, varint_max}
use nxp.Varint.Bytes.{low_byte_lem, head_byte_lem, decode_2_lem, decode_4_lem, decode_8_lem}
use nxp.Prelude.Word.{u8_mod}
use Prim.Native.Nat.{bit_and}

byte-lt : (v : ℕ) → v % 256 < 256
byte-lt v = omega arith

-- The number, put together again from its bytes.
join_4 :
    (v : ℕ)
    → v ≤ 1073741823
    → (((128 + v / 2 ^ 24) % 64 * 256 + v / 2 ^ 16 % 256) * 256 + v / 2 ^ 8 % 256) * 256 + v % 256
      ≡ v
join_4 v h = omega arith

join_8 :
    (v : ℕ)
    → v ≤ varint_max
    → (((((((192 + v / 2 ^ 56) % 64 * 256 + v / 2 ^ 48 % 256) * 256 + v / 2 ^ 40 % 256) * 256
                        + v / 2 ^ 32 % 256)
                      * 256
                    + v / 2 ^ 24 % 256)
                  * 256
                + v / 2 ^ 16 % 256)
              * 256
            + v / 2 ^ 8 % 256)
          * 256
        + v % 256
      ≡ v
join_8 v h = omega arith

decode_1_byte : (v : ℕ) (rest : List ℕ) → v ≤ 63 → decode ((v % u8_mod) ∷ rest) ≡ some (v, rest)
unfolding decode
decode_1_byte v rest h = ground (arith, mask_6 (v % u8_mod))

pub decode_small : (v : ℕ) (rest : List ℕ) → v ≤ 63 → decode (v ∷ rest) ≡ some (v, rest)
unfolding decode
decode_small v rest h = ground (arith, mask_6 v)

decode_2_bytes :
    (v : ℕ) (rest : List ℕ)
    → v ≤ 16383
    → decode (head_byte 0x40 v 8 ∷ bit_and v 0xff ∷ rest) ≡ some (v, rest)
unfolding decode
decode_2_bytes v rest h =
    let fits : v / 2 ^ 8 < 64 = omega arith in
    rw (head_byte_lem 1 0x40 v 8 refl (omega arith) fits, mask_8 v)
      (ground (arith, decode_2_lem (64 + v / 2 ^ 8) (v % 256) rest (byte-lt v)))

decode_4_bytes :
    (v : ℕ) (rest : List ℕ)
    → v ≤ 1073741823
    → decode (head_byte 0x80 v 24 ∷ low_byte v 16 ∷ low_byte v 8 ∷ bit_and v 0xff ∷ rest)
      ≡ some (v, rest)
unfolding decode
decode_4_bytes v rest h =
    let fits : v / 2 ^ 24 < 64 = omega arith in
    rw
      (
        head_byte_lem 2 0x80 v 24 refl (omega arith) fits,
        low_byte_lem v 16,
        low_byte_lem v 8,
        mask_8 v,
      )
      (ground (
        arith,
        join_4 v h,
        decode_4_lem (128 + v / 2 ^ 24) (v / 2 ^ 16 % 256) (v / 2 ^ 8 % 256) (v % 256) rest
            (byte-lt _) (byte-lt _) (byte-lt v),
      ))

decode_8_bytes :
    (v : ℕ) (rest : List ℕ)
    → v ≤ varint_max
    → decode (
        head_byte 0xc0 v 56
        ∷ low_byte v 48
        ∷ low_byte v 40
        ∷ low_byte v 32
        ∷ low_byte v 24
        ∷ low_byte v 16
        ∷ low_byte v 8
        ∷ bit_and v 0xff
        ∷ rest)
      ≡ some (v, rest)
unfolding decode
decode_8_bytes v rest h =
    let fits : v / 2 ^ 56 < 64 = omega arith in
    rw
      (
        head_byte_lem 3 0xc0 v 56 refl (omega arith) fits,
        low_byte_lem v 48,
        low_byte_lem v 40,
        low_byte_lem v 32,
        low_byte_lem v 24,
        low_byte_lem v 16,
        low_byte_lem v 8,
        mask_8 v,
      )
      (ground (
        arith,
        join_8 v h,
        decode_8_lem (192 + v / 2 ^ 56) (v / 2 ^ 48 % 256) (v / 2 ^ 40 % 256) (v / 2 ^ 32 % 256)
            (v / 2 ^ 24 % 256) (v / 2 ^ 16 % 256) (v / 2 ^ 8 % 256) (v % 256) rest (byte-lt _)
            (byte-lt _) (byte-lt _) (byte-lt _) (byte-lt _) (byte-lt _) (byte-lt v),
      ))

-- Whatever `encode` writes, `decode` reads back to the same number and stops right behind it.
pub decode-encode :
    (v n : ℕ) (out rest : List ℕ) → encode v n ≡ some out → decode (out ++ rest) ≡ some (v, rest)
unfolding encode
decode-encode v n out rest h =
    grind (arith, decode_1_byte, decode_2_bytes, decode_4_bytes, decode_8_bytes)
