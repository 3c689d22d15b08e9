-- ===== src/StreamRate/Tests.antt =====
-- Runs of the rate limiter of a stream, and the theorems at a concrete state.
use nxp.Prelude.{◌-◌, ◌≡◌, arith, true, leb}
use nxp.StreamRate.{StreamRate, can_send, on_send, budget}
use nxp.StreamRate.Budget.{budget-on_send}

abbrev limited : StreamRate
limited = record {
  rate_bps = 100000;
  tokens = 2500500;
  last_update = 700;
  max_burst = 10000;
  enabled = true;
  time_initialized = true;
}

budget-on_send_example :
    (can_send limited 2500 ≡ leb 2500 (budget limited))
    × (budget (on_send limited 2500) ≡ budget limited - 2500)
budget-on_send_example = budget-on_send limited 2500 (omega arith)
