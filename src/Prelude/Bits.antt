-- ===== src/Prelude/Bits.antt =====
-- Laws of the native bit operations that the codecs need: masks of low bits are remainders, and
-- an `or` of disjoint fields is a sum. Each follows from the law for the lowest binary digit.
use Prim.Native.Nat.{
  ℕ, zero, suc, ◌+◌, ◌*◌, ◌/◌, ◌%◌, ◌^◌, ◌≤◌, ◌<◌, min, max, bit_and, bit_or, digits,
  bit_and-bitwise, bit_or-bitwise,
}
use mathlib.Core.Path.{◌≡◌, refl, ap, ◌∙◌}
use mathlib.Core.Logic.{inl, inr}
use nxp.Prelude.Tests.{Bool-cases, leb}
use native.Mathlib.Omega.{arith}
use native.Mathlib.Nat.{pow-suc}

-- x >> k and x << k, without the cut to a width.
abbrev pub shr : ℕ → ℕ → ℕ
shr x k = x / 2 ^ k

abbrev pub shl : ℕ → ℕ → ℕ
shl x k = x * 2 ^ k

-- What an operation on binary digits does at the lowest digit, for any rule `f` for two digits.
module _ (z : ℕ → ℕ) (f : ℕ → ℕ → ℕ) where
  one_more : (n a b : ℕ) → a ≤ n → digits z f (suc n) a b ≡ digits z f n a b
  one_more zero zero b h = refl
  one_more zero (suc a) b h = absurd (omega arith)
  one_more (suc n) zero b h = refl
  one_more (suc n) (suc a) b h = omega (arith, one_more n (suc a / 2) (b / 2) (omega arith))

  -- The count of digits to go does not matter once it covers the first number.
  count_down : (n m a b : ℕ) → m ≤ n → a ≤ m → digits z f n a b ≡ digits z f m a b
  count_down zero m a b p q =
      let same : 0 ≡ m = omega arith in ap (λ (k : ℕ). digits z f k a b) same
  count_down (suc n) m a b p q = elim (Bool-cases (leb m n)) [
    | inl below ↦
        one_more n a b (ground (arith, below)) ∙ count_down n m a b (ground (arith, below)) q
    | inr above ↦
        let same : suc n ≡ m = ground (arith, above) in ap (λ (k : ℕ). digits z f k a b) same
  ]

  pub low_digit :
      (a b : ℕ)
      → digits z f (suc a) (suc a) b
        ≡ f (suc a % 2) (b % 2) + 2 * digits z f (suc a / 2) (suc a / 2) (b / 2)
  low_digit a b =
      omega (arith, count_down a (suc a / 2) (suc a / 2) (b / 2) (omega arith) (omega arith))

pub bit_or_step : (a b : ℕ) → bit_or a b ≡ max (a % 2) (b % 2) + 2 * bit_or (a / 2) (b / 2)
bit_or_step zero b = omega (arith, bit_or-bitwise 0 b, bit_or-bitwise 0 (b / 2))
bit_or_step (suc a) b =
    let whole = bit_or-bitwise (suc a) b in
    let half = bit_or-bitwise (suc a / 2) (b / 2) in
    omega (arith, whole, half, low_digit (λ x. x) max a b)

pub bit_and_step : (a b : ℕ) → bit_and a b ≡ min (a % 2) (b % 2) + 2 * bit_and (a / 2) (b / 2)
bit_and_step zero b = omega (arith, bit_and-bitwise 0 b, bit_and-bitwise 0 (b / 2))
bit_and_step (suc a) b =
    let whole = bit_and-bitwise (suc a) b in
    let half = bit_and-bitwise (suc a / 2) (b / 2) in
    omega (arith, whole, half, low_digit (λ x. zero) min a b)

-- Nothing is left of a number below `n`, and nothing is added to it, where the other number is 0.
pub with_zero : (n a : ℕ) → a < n → (bit_or a 0 ≡ a) × (bit_and a 0 ≡ 0)
with_zero zero a h = absurd (omega arith)
with_zero (suc n) zero h = (bit_or-bitwise 0 0, bit_and-bitwise 0 0)
with_zero (suc n) (suc a) h =
    let half = with_zero n (suc a / 2) (omega arith) in
    (omega (arith, bit_or_step (suc a) 0, half.0), omega (arith, bit_and_step (suc a) 0, half.1))

double_pow : (k : ℕ) → 2 ^ suc k ≡ 2 * 2 ^ k
double_pow k = omega (arith, pow-suc 2 k)

mul_one_pow : (a : ℕ) → a * 2 ^ 0 ≡ a
mul_one_pow a = omega arith

half_shift : (k a : ℕ) → a * 2 ^ suc k / 2 ≡ a * 2 ^ k
half_shift k a = omega (arith, ap (λ (t : ℕ). a * t) (double_pow k))

even_shift : (k a : ℕ) → a * 2 ^ suc k % 2 ≡ 0
even_shift k a = omega (arith, ap (λ (t : ℕ). a * t) (double_pow k))

-- Fields that share no bit: `(a << k) | b` is `(a << k) + b` for b below 2 ^ k.
pub bit_or-disjoint : (k a b : ℕ) → b < 2 ^ k → bit_or (a * 2 ^ k) b ≡ a * 2 ^ k + b
bit_or-disjoint zero a b h =
    let e : b ≡ 0 = omega arith in
    rw (e, mul_one_pow a) (omega (arith, (with_zero (suc a) a (omega arith)).0))
bit_or-disjoint (suc k) a b h = omega (
  arith,
  double_pow k,
  ap (λ (t : ℕ). a * t) (double_pow k),
  bit_or_step (a * 2 ^ suc k) b,
  bit_or-disjoint k a (b / 2) (omega (arith, double_pow k)),
  ap (λ (t : ℕ). bit_or t (b / 2)) (half_shift k a),
  even_shift k a,
)

-- Masks of k ones, one step of the recursion for each one.
mask_1 : (a : ℕ) → bit_and a 1 ≡ a % 2
mask_1 a = omega (arith, bit_and_step a 1, (with_zero (suc (a / 2)) (a / 2) (omega arith)).1)

mask_2 : (a : ℕ) → bit_and a 3 ≡ a % 4
mask_2 a = omega (arith, bit_and_step a 3, mask_1 (a / 2))

mask_3 : (a : ℕ) → bit_and a 7 ≡ a % 8
mask_3 a = omega (arith, bit_and_step a 7, mask_2 (a / 2))

pub mask_4 : (a : ℕ) → bit_and a 0x0f ≡ a % 16
mask_4 a = omega (arith, bit_and_step a 15, mask_3 (a / 2))

mask_5 : (a : ℕ) → bit_and a 31 ≡ a % 32
mask_5 a = omega (arith, bit_and_step a 31, mask_4 (a / 2))

pub mask_6 : (a : ℕ) → bit_and a 0x3f ≡ a % 64
mask_6 a = omega (arith, bit_and_step a 63, mask_5 (a / 2))

pub mask_7 : (a : ℕ) → bit_and a 0x7f ≡ a % 128
mask_7 a = omega (arith, bit_and_step a 127, mask_6 (a / 2))

pub mask_8 : (a : ℕ) → bit_and a 0xff ≡ a % 256
mask_8 a = omega (arith, bit_and_step a 255, mask_7 (a / 2))
