-- ===== src/Flow/Credit.antt =====
-- What flow control promises: a sender that asks first stays within the peer's limit, and a reader
-- that has used up its limit offers more.
use nxp.Prelude.{ℕ, ◌+◌, ◌*◌, ◌≤◌, ◌<◌, ◌≡◌, arith, true, false}
use nxp.Prelude.Word.{u64_mod}
use nxp.Flow.{
  FlowCtrl, can_send, on_send, on_recv, on_consume, set_peer_max, should_update, get_update,
}

-- One call that a connection makes. A call of `on_send` comes after `can_send` has agreed to the
-- length, and no count passes 2^64.
pub data Step : FlowCtrl → FlowCtrl → Type 0 where
  sends :
      (fc : FlowCtrl) (len : ℕ)
      → can_send fc len ≡ true
      → fc.data_sent + len < u64_mod
      → Step fc (on_send fc len)
  receives : (fc : FlowCtrl) (len : ℕ) → fc.data_recv + len < u64_mod → Step fc (on_recv fc len)
  consumes : (fc : FlowCtrl) (len : ℕ) → Step fc (on_consume fc len)
  raises : (fc : FlowCtrl) (max_data : ℕ) → Step fc (set_peer_max fc max_data)
  updates : (fc : FlowCtrl) → Step fc (get_update fc).0

pub data Run : FlowCtrl → FlowCtrl → Type 0 where
  done : (fc : FlowCtrl) → Run fc fc
  and_then : {a b c : FlowCtrl} → Step a b → Run b c → Run a c

-- The sender is within the limit, and what is offered is not less than what the peer knows.
abbrev pub IsWithin : FlowCtrl → Type 0
IsWithin fc = (fc.data_sent ≤ fc.peer_max_data) × (fc.local_max_data ≤ fc.max_data_next)

-- What a later state keeps of an earlier one: neither limit shrinks, nor does what was sent or received.
abbrev pub IsLater : FlowCtrl → FlowCtrl → Type 0
IsLater a b =
    (a.peer_max_data ≤ b.peer_max_data)
    × (a.local_max_data ≤ b.local_max_data)
    × (a.data_sent ≤ b.data_sent)
    × (a.data_recv ≤ b.data_recv)

Step-IsWithin : (a b : FlowCtrl) → Step a b → IsWithin a → IsWithin b × IsLater a b
unfolding can_send on_send on_recv on_consume set_peer_max get_update
Step-IsWithin a b (sends fc len yes_it_may h) w = ground (arith, yes_it_may, h, w)
Step-IsWithin a b (receives fc len h) w = ground (arith, h, w)
Step-IsWithin a b (consumes fc len) w = ground (arith, w)
Step-IsWithin a b (raises fc max_data) w = ground (arith, w)
Step-IsWithin a b (updates fc) w = ground (arith, w)

-- Through any run of calls in which each send was asked for first and no count passes 2^64, what was
-- sent stays within the peer's limit, what is offered next is at least what was advertised, and
-- neither limit, nor what was sent or received, ever shrinks.
pub Run-IsWithin : (a b : FlowCtrl) → Run a b → IsWithin a → IsWithin b × IsLater a b
Run-IsWithin a b (done fc) w = ground (arith, w)
Run-IsWithin a c (and_then {b = b} s r) w =
    let first = Step-IsWithin a b s w in
    let more = Run-IsWithin b c r first.0 in (more.0, omega (arith, first.1, more.1))

-- A peer that has used up a limit above 0 is offered more as soon as data is consumed: an update is
-- due, and the limit that it advertises is larger by what the old one allowed, while twice the old one
-- is below 2^64.
pub get_update-on_consume :
    (fc : FlowCtrl) (len : ℕ)
    → fc.data_recv ≡ fc.local_max_data
    → 0 < fc.local_max_data
    → fc.local_max_data * 2 < u64_mod
    → fc.max_data_next ≡ fc.local_max_data
    → let fc' = on_consume fc len in
      (should_update fc' ≡ true)
      × ((get_update fc').1 ≡ fc.local_max_data * 2)
      × ((get_update fc').0.local_max_data ≡ (get_update fc').1)
      × (should_update (get_update fc').0 ≡ false)
unfolding on_consume should_update get_update
get_update-on_consume fc len h0 h1 h2 h3 = ground (arith, h0, h1, h2, h3)
