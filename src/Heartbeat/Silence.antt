-- ===== src/Heartbeat/Silence.antt =====
-- A connection counts as dead after a silence, and only then.
use nxp.Prelude.{ℕ, zero, suc, ◌+◌, ◌<◌, ◌≡◌, arith, true, false, leb}
use nxp.Prelude.Word.{u32_mod}
use nxp.Heartbeat.{Heartbeat, fire, check, on_recv, next_timeout, is_dead}

-- The state when the timer has fired `n` times more, each time when it was due, and nothing arrived.
unfoldable pub silent : ℕ → Heartbeat → Heartbeat
silent zero hb = hb
silent (suc n) hb = silent n (check hb (next_timeout hb))

check-next_timeout :
    (hb : Heartbeat)
    → hb.enabled ≡ true
    → hb.time_initialized ≡ true
    → hb.awaiting_response ≡ true
    → hb.consecutive_misses + 1 < u32_mod
    → let hb' = check hb (next_timeout hb) in
      (hb'.enabled ≡ true)
      × (hb'.time_initialized ≡ true)
      × (hb'.awaiting_response ≡ true)
      × (hb'.consecutive_misses ≡ hb.consecutive_misses + 1)
      × (hb'.send_heartbeat ≡ true)
      × (hb'.last_sent_us ≡ next_timeout hb)
unfolding check next_timeout fire
check-next_timeout hb h0 h1 h2 h3 = ground (arith, h0, h1, h2, h3)

-- While a probe is awaited and the count stays below 2^32, each timer that fires when it is due, with
-- nothing arriving, adds one miss; so the connection is dead after it exactly if the misses so far and
-- the timers come to three at least. A heartbeat that then arrives makes it alive again.
pub is_dead-silent :
    (n : ℕ) (hb : Heartbeat) (timestamp_us now_us : ℕ)
    → hb.enabled ≡ true
    → hb.time_initialized ≡ true
    → hb.awaiting_response ≡ true
    → hb.consecutive_misses + n < u32_mod
    → ((silent n hb).consecutive_misses ≡ hb.consecutive_misses + n)
      × (is_dead (silent n hb) ≡ leb 3 (hb.consecutive_misses + n))
      × (is_dead (on_recv (silent n hb) timestamp_us now_us) ≡ false)
unfolding silent is_dead on_recv
is_dead-silent zero hb timestamp_us now_us h0 h1 h2 h3 = ground (arith, h0)
is_dead-silent (suc n) hb timestamp_us now_us h0 h1 h2 h3 =
    let step = check-next_timeout hb h0 h1 h2 (omega arith) in
    ground (
      arith,
      step,
      h0,
      is_dead-silent n (check hb (next_timeout hb)) timestamp_us now_us step.0 step.1 step.2
          (omega (arith, step.3)),
    )
