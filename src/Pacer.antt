-- ===== src/Pacer.antt =====
-- The packet pacer: src/congestion/pacing.c and src/congestion/pacing.h.
pub mod Rate
mod Tests
use nxp.Prelude.{
  ℕ, ◌+◌, ◌-◌, ◌*◌, ◌/◌, Bool, true, false, not, ◌&&◌, ◌||◌, ltb, leb, ◌==◌, if◌then◌else◌,
}
use nxp.Prelude.Word.{add64, mul64}
use nxp.TokenBucket.{token_scale, refill, cap, spend}

abbrev pub max_burst_bytes : ℕ
max_burst_bytes = 12000

pub record Pacer : Type 0 where
  pub rate_bps : ℕ
  pub tokens : ℕ
  pub last_update : ℕ
  pub max_burst : ℕ
  pub enabled : Bool
  pub time_initialized : Bool

unfoldable pub init : Pacer
init = record {
  rate_bps = 0;
  tokens = max_burst_bytes * token_scale;
  last_update = 0;
  max_burst = max_burst_bytes;
  enabled = false;
  time_initialized = false;
}

unfoldable pub set_rate : Pacer → ℕ → Pacer
set_rate p rate_bps = record p { rate_bps = rate_bps; enabled = ltb 0 rate_bps }

unfoldable pub update : Pacer → ℕ → Pacer
update p now_us =
    if not p.enabled || p.rate_bps == 0
    then p
    else if not p.time_initialized
    then record p { last_update = now_us; time_initialized = true }
    else if leb now_us p.last_update
    then p
    else record p {
      last_update = now_us;
      tokens =
          cap (mul64 p.max_burst token_scale)
            (add64 p.tokens (refill p.rate_bps (now_us - p.last_update)));
    }

unfoldable pub can_send : Pacer → ℕ → Bool
can_send p bytes = if p.enabled then leb (mul64 bytes token_scale) p.tokens else true

unfoldable pub on_send : Pacer → ℕ → Pacer
on_send p bytes =
    if p.enabled then record p { tokens = spend p.tokens (mul64 bytes token_scale) } else p

unfoldable pub next_send_time : Pacer → ℕ → ℕ
next_send_time p bytes =
    let cost = mul64 bytes token_scale in
    if not p.enabled || p.rate_bps == 0
    then 0
    else if leb cost p.tokens
    then 0
    else mul64 (cost - p.tokens) 1000000 / mul64 p.rate_bps token_scale
