-- ===== src/Prelude/Xor.antt =====
-- Exclusive or: applied twice with the same number it gives the first number back.
use Prim.Native.Nat.{ℕ, zero, suc, ◌+◌, ◌*◌, ◌/◌, ◌%◌, ◌≤◌, ◌<◌, bit_xor, bit_xor-bitwise, differ}
use mathlib.Core.Path.{◌≡◌, refl, ap, ◌∙◌}
use native.Mathlib.Omega.{arith}
use nxp.Prelude.Bits.{low_digit}

pub bit_xor_step : (a b : ℕ) → bit_xor a b ≡ differ (a % 2) (b % 2) + 2 * bit_xor (a / 2) (b / 2)
bit_xor_step zero b = omega (arith, bit_xor-bitwise 0 b, bit_xor-bitwise 0 (b / 2))
bit_xor_step (suc a) b =
    let whole = bit_xor-bitwise (suc a) b in
    let half = bit_xor-bitwise (suc a / 2) (b / 2) in
    omega (arith, whole, half, low_digit (λ x. x) differ a b)

differ_twice : (p q : ℕ) → p < 2 → q < 2 → (differ p q < 2) × (differ (differ p q) q ≡ p)
differ_twice zero zero h k = (omega arith, refl)
differ_twice zero (suc zero) h k = (omega arith, refl)
differ_twice (suc zero) zero h k = (omega arith, refl)
differ_twice (suc zero) (suc zero) h k = (omega arith, refl)
differ_twice (suc (suc p)) q h k = absurd (omega arith)
differ_twice p (suc (suc q)) h k = absurd (omega arith)

-- For any bound on the two numbers.
twice : (n a b : ℕ) → a ≤ n → b ≤ n → bit_xor (bit_xor a b) b ≡ a
twice zero a b h k =
    let first : a ≡ 0 = omega arith in let second : b ≡ 0 = omega arith in rw (first, second) refl
twice (suc n) a b h k =
    let x = bit_xor a b in
    let (small, back) = differ_twice (a % 2) (b % 2) (omega arith) (omega arith) in
    let once = bit_xor_step a b in
    let digit : x % 2 ≡ differ (a % 2) (b % 2) = omega (arith, once, small) in
    let half : x / 2 ≡ bit_xor (a / 2) (b / 2) = omega (arith, once, small) in
    omega (
      arith,
      bit_xor_step x b,
      ap (λ (d : ℕ). differ d (b % 2)) digit ∙ back,
      ap (λ (y : ℕ). bit_xor y (b / 2)) half ∙ twice n (a / 2) (b / 2) (omega arith) (omega arith),
    )

pub bit_xor_twice : (a b : ℕ) → bit_xor (bit_xor a b) b ≡ a
bit_xor_twice a b = twice (a + b) a b (omega arith) (omega arith)
