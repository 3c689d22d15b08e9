-- ===== src/Prelude/Masks.antt =====
-- Masks of any number of ones, and what is left of a number above them.
use nxp.Prelude.Bits.{bit_and_step, with_zero}
use Prim.Native.Nat.{ℕ, zero, suc, ◌+◌, ◌*◌, ◌/◌, ◌^◌, ◌<◌, bit_and}
use mathlib.Core.Path.{◌≡◌, refl, ap, sym, ◌∙◌}
use native.Mathlib.Omega.{arith}
use native.Mathlib.Nat.{pow-suc, div-div-eq-div-mul}

-- k ones.
abbrev pub ones : ℕ → ℕ
ones zero = 0
ones (suc k) = 2 * ones k + 1

-- k zeros behind the digits of m.
abbrev pub zeros_behind : ℕ → ℕ → ℕ
zeros_behind zero m = m
zeros_behind (suc k) m = 2 * zeros_behind k m

-- The digits of a above the lowest k.
abbrev pub halved : ℕ → ℕ → ℕ
halved zero a = a
halved (suc k) a = halved k (a / 2)

double_pow : (k : ℕ) → 2 ^ suc k ≡ 2 * 2 ^ k
double_pow k = omega (arith, pow-suc 2 k)

-- A mask of k ones leaves a number of k digits as it is.
bit_and-ones_below : (k a : ℕ) → a < 2 ^ k → bit_and a (ones k) ≡ a
bit_and-ones_below zero a h = (with_zero (suc a) a (omega arith)).1 ∙ omega arith
bit_and-ones_below (suc k) a h =
    let half : (2 * ones k + 1) / 2 ≡ ones k = omega arith in
    omega (
      arith,
      bit_and_step a (ones (suc k)),
      bit_and-ones_below k (a / 2) (omega (arith, double_pow k)),
      ap (λ (t : ℕ). bit_and (a / 2) t) half,
    )

pub bit_and-zeros_behind :
    (k a m : ℕ) → bit_and a (zeros_behind k m) ≡ zeros_behind k (bit_and (halved k a) m)
bit_and-zeros_behind zero a m = refl
bit_and-zeros_behind (suc k) a m = omega (
  arith,
  bit_and_step a (zeros_behind (suc k) m),
  bit_and-zeros_behind k (a / 2) m,
  ap (λ (t : ℕ). bit_and (a / 2) t) (half (zeros_behind k m)),
)
  where
    half : (t : ℕ) → 2 * t / 2 ≡ t
    half t = omega arith

zeros_behind_lem : (k m : ℕ) → zeros_behind k m ≡ m * 2 ^ k
zeros_behind_lem zero m = omega arith
zeros_behind_lem (suc k) m =
    omega (arith, zeros_behind_lem k m, ap (λ (t : ℕ). m * t) (double_pow k))

halved_lem : (k a : ℕ) → halved k a ≡ a / 2 ^ k
halved_lem zero a = omega arith
halved_lem (suc k) a =
    halved_lem k (a / 2)
    ∙ div-div-eq-div-mul a 2 (2 ^ k)
    ∙ ap (λ (t : ℕ). a / t) (sym (double_pow k))

-- `a & ~(2^k - 1)`, for a number of k + j digits: its lowest k digits are cleared.
pub bit_and_high :
    (k j a : ℕ) → a / 2 ^ k < 2 ^ j → bit_and a (zeros_behind k (ones j)) ≡ a / 2 ^ k * 2 ^ k
bit_and_high k j a h =
    bit_and-zeros_behind k a (ones j)
    ∙ zeros_behind_lem k (bit_and (halved k a) (ones j))
    ∙ ap (λ (t : ℕ). t * 2 ^ k)
        (ap (λ (t : ℕ). bit_and t (ones j)) (halved_lem k a) ∙ bit_and-ones_below j (a / 2 ^ k) h)
