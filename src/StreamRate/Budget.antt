-- ===== src/StreamRate/Budget.antt =====
-- The budget of a stream is what it may send, and what a stream with a limit sends comes off it.
use nxp.Prelude.{
  ℕ, ◌+◌, ◌-◌, ◌*◌, ◌^◌, ◌≤◌, ◌<◌, ◌≡◌, ap, arith, inl, inr, true, leb, if◌then◌else◌, Bool-cases,
}
use nxp.Prelude.Word.{u32_mod, u64_mod, u64_max}
use nxp.TokenBucket.{refill, cap, spend, refill_bounds}
use nxp.StreamRate.{StreamRate, set, burst_of, update, can_send, on_send, budget}

-- For fewer than 2^32 bytes: `can_send` agrees exactly to what the budget covers. If the stream has a limit,
-- sending within the budget takes what was sent off it, no more and no less, and sending past it leaves
-- nothing; if it has none, the budget is 2^64 - 1 and stays so.
pub budget-on_send :
    (r : StreamRate) (bytes : ℕ)
    → bytes < u32_mod
    → (can_send r bytes ≡ leb bytes (budget r))
      × (budget (on_send r bytes) ≡ (if r.enabled then budget r - bytes else u64_max))
unfolding can_send on_send budget spend
budget-on_send r bytes hb = elim (Bool-cases r.enabled) [
  | inl limited ↦ rw limited (ground (arith, limited, hb))
  | inr free ↦ rw free (ground (arith, free, hb))
]

-- Once a rate below 2^50 bytes a second is set, the budget is at least 4800 bytes and a tenth of the
-- rate, to begin with; and from a state whose tokens are within the burst, `elapsed` microseconds
-- later it has grown by no more than the rate allows, rounded up, and is within the burst.
pub budget-update :
    (r : StreamRate) (rate_bps elapsed : ℕ)
    → 0 < rate_bps
    → rate_bps < 2 ^ 50
    → r.enabled ≡ true
    → r.max_burst < 2 ^ 50
    → r.tokens ≤ r.max_burst * 1000
    → r.rate_bps * elapsed * 1000 < u64_mod
    → (4800 ≤ budget (set r rate_bps))
      × (rate_bps ≤ budget (set r rate_bps) * 10 + 9)
      × (budget (update r (r.last_update + elapsed)) ≤ r.max_burst)
      × (budget (update r (r.last_update + elapsed)) * 1000000
          ≤ budget r * 1000000 + r.rate_bps * elapsed + 1000000)
unfolding set burst_of update budget cap
budget-update r rate_bps elapsed h0 h1 h2 h3 h4 h5 =
    let same : refill r.rate_bps (r.last_update + elapsed - r.last_update)
        ≡ refill r.rate_bps elapsed =
      ap (refill r.rate_bps) (omega arith) in
    ground (arith, h0, h1, h2, h3, h4, h5, same, refill_bounds r.rate_bps elapsed h5)
