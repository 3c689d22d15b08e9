-- ===== src/StreamRate.antt =====
-- The rate limiter of a stream: src/core/stream_rate.h.
pub mod Budget
mod Tests
use nxp.Prelude.{
  ℕ, ◌+◌, ◌-◌, ◌*◌, ◌/◌, Bool, true, false, not, ◌&&◌, ◌||◌, ltb, leb, ◌==◌, if◌then◌else◌,
}
use nxp.Prelude.Word.{add64, mul64, u64_max}
use nxp.TokenBucket.{token_scale, refill, cap, spend}

pub record StreamRate : Type 0 where
  pub rate_bps : ℕ
  pub tokens : ℕ
  pub last_update : ℕ
  pub max_burst : ℕ
  pub enabled : Bool
  pub time_initialized : Bool

unfoldable pub init : StreamRate
init = record {
  rate_bps = 0;
  tokens = 0;
  last_update = 0;
  max_burst = 0;
  enabled = false;
  time_initialized = false;
}

-- A tenth of a second of the rate, but 4800 bytes at least.
unfoldable pub burst_of : ℕ → ℕ
burst_of rate_bps = if ltb (rate_bps / 10) 4800 then 4800 else rate_bps / 10

unfoldable pub set : StreamRate → ℕ → StreamRate
set r rate_bps = record r {
  rate_bps = rate_bps;
  enabled = ltb 0 rate_bps;
  max_burst = burst_of rate_bps;
  tokens = mul64 (burst_of rate_bps) token_scale;
}

unfoldable pub update : StreamRate → ℕ → StreamRate
update r now_us =
    if not r.enabled || r.rate_bps == 0
    then r
    else if not r.time_initialized
    then record r { last_update = now_us; time_initialized = true }
    else if leb now_us r.last_update
    then r
    else record r {
      last_update = now_us;
      tokens =
          cap (mul64 r.max_burst token_scale)
            (add64 r.tokens (refill r.rate_bps (now_us - r.last_update)));
    }

unfoldable pub can_send : StreamRate → ℕ → Bool
can_send r bytes = if r.enabled then leb (mul64 bytes token_scale) r.tokens else true

unfoldable pub on_send : StreamRate → ℕ → StreamRate
on_send r bytes =
    if r.enabled then record r { tokens = spend r.tokens (mul64 bytes token_scale) } else r

unfoldable pub budget : StreamRate → ℕ
budget r = if r.enabled then r.tokens / 1000 else u64_max
