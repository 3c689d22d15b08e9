-- ===== src/Pacer/Rate.antt =====
-- The pacer keeps to its rate, and the delay it announces is long enough.
use nxp.Prelude.{ℕ, zero, suc, ◌+◌, ◌-◌, ◌*◌, ◌/◌, ◌≤◌, ◌<◌, ◌≡◌, ap, subst, sym, ◌∙◌, arith, true}
use native.Mathlib.Nat.{lt-mul-div-succ, mod-eq_of_lt}
use nxp.Prelude.Word.{u32_mod, u64_mod, mul64}
use nxp.TokenBucket.{refill, cap, spend, mul-split, refill_bounds}
use nxp.Pacer.{Pacer, update, can_send, on_send, next_send_time}

-- What the pacer is asked for while it is on: the refill does not pass 2^64, and a packet is sent only
-- where `can_send` agrees. The number is the bytes sent.
pub data Step : Pacer → ℕ → Pacer → Type 0 where
  ticks :
      (p : Pacer) (now_us : ℕ)
      → p.rate_bps * (now_us - p.last_update) * 1000 < u64_mod
      → p.tokens + p.rate_bps * (now_us - p.last_update) < u64_mod
      → Step p 0 (update p now_us)
  sends :
      (p : Pacer) (bytes : ℕ)
      → bytes < u32_mod
      → can_send p bytes ≡ true
      → Step p bytes (on_send p bytes)

pub data Run : Pacer → ℕ → Pacer → Type 0 where
  done : (p : Pacer) → Run p 0 p
  and_then : {a b c : Pacer} {m n : ℕ} → Step a m b → Run b n c → Run a (m + n) c

abbrev pub IsOn : Pacer → Type 0
IsOn p = (p.enabled ≡ true) × (0 < p.rate_bps) × (p.time_initialized ≡ true)

-- What was sent, with the tokens left, is paid for by the tokens there were and by the time passed.
abbrev pub IsPaid : Pacer → ℕ → Pacer → Type 0
IsPaid a sent b =
    (b.rate_bps ≡ a.rate_bps)
    × (b.max_burst ≡ a.max_burst)
    × (sent * 1000000 + b.tokens * 1000 + a.rate_bps * a.last_update
        ≤ a.tokens * 1000 + a.rate_bps * b.last_update)

Step-IsPaid : (a : Pacer) (sent : ℕ) (b : Pacer) → Step a sent b → IsOn a → IsOn b × IsPaid a sent b
unfolding update can_send on_send cap spend
Step-IsPaid a sent b (ticks p now_us h0 h1) on = ground (
  arith,
  on,
  h0,
  h1,
  refill_bounds p.rate_bps (now_us - p.last_update) h0,
  mul-split p.rate_bps p.last_update now_us,
)
Step-IsPaid a sent b (sends p bytes h may) on = ground (arith, h, may, on)

-- While the pacer is on and its counts stay below 2^64, through any run of refills and of sends that
-- `can_send` agrees to, what is sent is paid for: a million times the bytes, and the tokens left, come
-- to no more than the tokens there were and the rate times the time that passed.
pub Run-IsPaid : (a : Pacer) (sent : ℕ) (b : Pacer) → Run a sent b → IsOn a → IsPaid a sent b
Run-IsPaid a sent b (done p) on = ground (arith, on)
Run-IsPaid a sent c (and_then {b = b} {m = m} {n = n} s r) on =
    let first = Step-IsPaid a m b s on in
    let more = Run-IsPaid b n c r first.0 in combine first.1 more
  where
    combine : IsPaid a m b → IsPaid b n c → IsPaid a (m + n) c
    combine (x0, x1, x) (y0, y1, y) =
        let y' =
          subst
            (λ r.
              n * 1000000 + c.tokens * 1000 + r * b.last_update
              ≤ b.tokens * 1000 + r * c.last_update)
            x0 y in
        (y0 ∙ x0, y1 ∙ x1, omega (arith, x, y'))

can_send_after :
    (p : Pacer) (bytes t : ℕ)
    → IsOn p
    → bytes ≤ p.max_burst
    → p.max_burst < u32_mod
    → 0 < t
    → p.tokens + p.rate_bps * t * 1000 < u64_mod
    → (bytes * 1000 - p.tokens) * 1000 < p.rate_bps * t + 1
    → can_send (update p (p.last_update + t)) bytes ≡ true
unfolding can_send update cap
can_send_after p bytes t on hb hm ht h1 h2 =
    let same : refill p.rate_bps (p.last_update + t - p.last_update) ≡ refill p.rate_bps t =
      ap (refill p.rate_bps) (omega arith) in
    ground (arith, on, hb, hm, ht, h1, h2, same, refill_bounds p.rate_bps t (omega arith))

-- The delay where the tokens do not do, for counts that stay below 2^64.
next_send_time_deficit :
    (p : Pacer) (bytes : ℕ)
    → IsOn p
    → bytes < u32_mod
    → p.rate_bps * 1000 < u64_mod
    → (bytes * 1000 - p.tokens) * 1000000 < u64_mod
    → p.tokens < bytes * 1000
    → next_send_time p bytes ≡ (bytes * 1000 - p.tokens) * 1000000 / (p.rate_bps * 1000)
unfolding next_send_time
next_send_time_deficit p bytes on hb h0 h1 ht =
    let cost : mul64 bytes 1000 ≡ bytes * 1000 = mod-eq_of_lt (omega arith) in
    let rate : mul64 p.rate_bps 1000 ≡ p.rate_bps * 1000 = mod-eq_of_lt h0 in
    let deficit : mul64 (bytes * 1000 - p.tokens) 1000000 ≡ (bytes * 1000 - p.tokens) * 1000000 =
      mod-eq_of_lt h1 in
    let quotient : mul64 (bytes * 1000 - p.tokens) 1000000 / mul64 p.rate_bps 1000
        ≡ (bytes * 1000 - p.tokens) * 1000000 / (p.rate_bps * 1000) =
      cc in
    ground (arith, on, ht, cost, quotient)

next_send_time_lem :
    (p : Pacer) (bytes : ℕ)
    → IsOn p
    → bytes < u32_mod
    → p.rate_bps * 1000 < u64_mod
    → (bytes * 1000 - p.tokens) * 1000000 < u64_mod
    → (bytes * 1000 - p.tokens) * 1000 < p.rate_bps * (next_send_time p bytes + 1) + 1
next_send_time_lem p bytes on hb h0 h1 =
    enough (bytes * 1000 - p.tokens) (next_send_time p bytes) (λ ht.
      subst (λ q. (bytes * 1000 - p.tokens) * 1000000 < p.rate_bps * 1000 * (q + 1))
        (sym (next_send_time_deficit p bytes on hb h0 h1 (omega arith)))
        (lt-mul-div-succ ((bytes * 1000 - p.tokens) * 1000000) {b = p.rate_bps * 1000}
          (omega arith)))
  where
    enough :
        (d q : ℕ)
        → (0 < d → d * 1000000 < p.rate_bps * 1000 * (q + 1))
        → d * 1000 < p.rate_bps * (q + 1) + 1
    enough zero q h = omega arith
    enough (suc d) q h = omega (arith, h (omega arith))

-- A packet of at most the burst is let through one microsecond after the delay that `next_send_time`
-- announces.
pub can_send-update :
    (p : Pacer) (bytes : ℕ)
    → IsOn p
    → bytes ≤ p.max_burst
    → p.max_burst < u32_mod
    → let t = next_send_time p bytes + 1 in
      p.rate_bps * 1000 < u64_mod
      → p.tokens + p.rate_bps * t * 1000 < u64_mod
      → (bytes * 1000 - p.tokens) * 1000000 < u64_mod
      → can_send (update p (p.last_update + t)) bytes ≡ true
can_send-update p bytes on hb hm h0 h1 h3 =
    can_send_after p bytes (next_send_time p bytes + 1) on hb hm (omega arith) h1
      (next_send_time_lem p bytes on (omega arith) h0 h3)

abbrev pub IsCapped : Pacer → Type 0
IsCapped p = p.tokens ≤ p.max_burst * 1000

-- While the burst is below 2^32 bytes, the tokens never come to more than one burst: neither a
-- refill nor a send, guarded or not, takes them above it, and a send never brings them below 0.
pub update-IsCapped :
    (p : Pacer) (now_us bytes : ℕ)
    → p.max_burst < u32_mod
    → IsCapped p
    → IsCapped (update p now_us) × IsCapped (on_send p bytes)
unfolding update on_send cap spend
update-IsCapped p now_us bytes hm h = ground (arith, hm, h)
