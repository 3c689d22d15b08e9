-- ===== src/Varint/Bytes.antt =====
-- The byte arithmetic of the codec: a number cut into bytes, and bytes joined to a number.
use nxp.Prelude.{ℕ, zero, suc, ◌+◌, ◌*◌, ◌/◌, ◌%◌, ◌^◌, ◌<◌, ◌≡◌, refl, ap, arith, List, ◌∷◌, some}
use nxp.Prelude.Bits.{bit_or-disjoint, mask_6, mask_8}
use nxp.Varint.{head_byte, low_byte, decode_2, decode_4, decode_8}
use Prim.Native.Nat.{bit_or}
use native.Mathlib.Nat.{pow-suc}

pub low_byte_lem : (v k : ℕ) → low_byte v k ≡ v / 2 ^ k % 256
unfolding low_byte
low_byte_lem v k = mask_8 (v / 2 ^ k)

-- The two top bits of the first byte say how long the encoding is.
pub head_byte_lem :
    (m mark v k : ℕ)
    → mark ≡ m * 2 ^ 6
    → m < 4
    → v / 2 ^ k < 64
    → head_byte mark v k ≡ mark + v / 2 ^ k
unfolding head_byte
head_byte_lem m mark v k e hm h = rw (e, bit_or-disjoint 6 m (v / 2 ^ k) h) (omega arith)

-- An `or` onto a number whose k lowest bits are clear.
or_onto : (k q a b : ℕ) → a ≡ q * 2 ^ k → b < 2 ^ k → bit_or a b ≡ a + b
or_onto k q a b e h = rw (e, bit_or-disjoint k q b h)

pub decode_2_lem :
    (b0 b1 : ℕ) (rest : List ℕ)
    → b1 < 256
    → decode_2 b0 (b1 ∷ rest) ≡ some (b0 % 64 * 256 + b1, rest)
unfolding decode_2
decode_2_lem b0 b1 rest h = rw (mask_6 b0, or_onto 8 (b0 % 64) (b0 % 64 * 2 ^ 8) b1 refl h)

pow_pos : (k : ℕ) → 0 < 2 ^ k
pow_pos zero = omega arith
pow_pos (suc k) = omega (arith, pow-suc 2 k, pow_pos k)

scaled : (b p : ℕ) → b < 256 → 0 < p → b * p < 256 * p
scaled b p h hp = grind arith

-- One more byte behind a number that stands j bits up, where j is k + 8.
or_byte :
    (j k x b : ℕ)
    → 2 ^ j ≡ 256 * 2 ^ k
    → b < 256
    → bit_or (x * 2 ^ j) (b * 2 ^ k) ≡ (x * 256 + b) * 2 ^ k
or_byte j k x b e h =
    rw (bit_or-disjoint j x (b * 2 ^ k) (omega (arith, e, scaled b (2 ^ k) h (pow_pos k))))
      (omega (arith, ap (λ (t : ℕ). x * t) e))

pub decode_4_lem :
    (b0 b1 b2 b3 : ℕ) (rest : List ℕ)
    → b1 < 256
    → b2 < 256
    → b3 < 256
    → decode_4 b0 (b1 ∷ b2 ∷ b3 ∷ rest) ≡ some (((b0 % 64 * 256 + b1) * 256 + b2) * 256 + b3, rest)
unfolding decode_4
decode_4_lem b0 b1 b2 b3 rest h1 h2 h3 =
    let x0 = b0 % 64 in
    let x1 = x0 * 256 + b1 in
    let x2 = x1 * 256 + b2 in
    rw (
      mask_6 b0,
      or_byte 24 16 x0 b1 refl h1,
      or_byte 16 8 x1 b2 refl h2,
      or_onto 8 x2 (x2 * 2 ^ 8) b3 refl h3,
    )

pub decode_8_lem :
    (b0 b1 b2 b3 b4 b5 b6 b7 : ℕ) (rest : List ℕ)
    → b1 < 256
    → b2 < 256
    → b3 < 256
    → b4 < 256
    → b5 < 256
    → b6 < 256
    → b7 < 256
    → decode_8 b0 (b1 ∷ b2 ∷ b3 ∷ b4 ∷ b5 ∷ b6 ∷ b7 ∷ rest)
      ≡ some (
        ((((((b0 % 64 * 256 + b1) * 256 + b2) * 256 + b3) * 256 + b4) * 256 + b5) * 256 + b6) * 256
            + b7,
        rest,
      )
unfolding decode_8
decode_8_lem b0 b1 b2 b3 b4 b5 b6 b7 rest h1 h2 h3 h4 h5 h6 h7 =
    let x0 = b0 % 64 in
    let x1 = x0 * 256 + b1 in
    let x2 = x1 * 256 + b2 in
    let x3 = x2 * 256 + b3 in
    let x4 = x3 * 256 + b4 in
    let x5 = x4 * 256 + b5 in
    let x6 = x5 * 256 + b6 in
    rw (
      mask_6 b0,
      or_byte 56 48 x0 b1 refl h1,
      or_byte 48 40 x1 b2 refl h2,
      or_byte 40 32 x2 b3 refl h3,
      or_byte 32 24 x3 b4 refl h4,
      or_byte 24 16 x4 b5 refl h5,
      or_byte 16 8 x5 b6 refl h6,
      or_onto 8 x6 (x6 * 2 ^ 8) b7 refl h7,
    )
