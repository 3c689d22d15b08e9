-- ===== src/TokenBucket.antt =====
-- What src/congestion/pacing.c and src/core/stream_rate.h have in common: tokens are thousandths of a byte.
use nxp.Prelude.{ℕ, ◌+◌, ◌-◌, ◌*◌, ◌/◌, ◌≤◌, ◌<◌, ◌≡◌, arith, ltb, leb, if◌then◌else◌}
use nxp.Prelude.Word.{u64_mod, mul64}

abbrev pub token_scale : ℕ
token_scale = 1000

-- The new tokens of `elapsed` microseconds.
unfoldable pub refill : ℕ → ℕ → ℕ
refill rate_bps elapsed = mul64 (mul64 rate_bps elapsed) token_scale / 1000000

unfoldable pub cap : ℕ → ℕ → ℕ
cap max_tokens tokens = if ltb max_tokens tokens then max_tokens else tokens

unfoldable pub spend : ℕ → ℕ → ℕ
spend tokens cost = if leb cost tokens then tokens - cost else 0

pub mul-split : (rate a b : ℕ) → a ≤ b → rate * b ≡ rate * a + rate * (b - a)
mul-split rate a b h = grind arith

-- A refill gives no more than the rate allows.
pub refill_bounds :
    (rate_bps elapsed : ℕ)
    → rate_bps * elapsed * 1000 < u64_mod
    → (refill rate_bps elapsed * 1000 ≤ rate_bps * elapsed)
      × (rate_bps * elapsed < refill rate_bps elapsed * 1000 + 1000)
unfolding refill
refill_bounds rate_bps elapsed h = omega arith
