-- ===== src/Bbr/Consistent.antt =====
-- The gains belong to the state, in every state that the callbacks reach.
use nxp.Prelude.{ℕ, ◌≤◌, ◌<◌, ◌≡◌, ◌⊎◌, inl, inr, refl, arith, Bool, true, not, leb, Bool-cases}
use nxp.Bbr.{
  Bbr, BbrState, AckInfo, LossInfo, is_probe_rtt, min_cwnd, init_state, update_round,
  update_bandwidth, update_rt_prop, update_model, enter_drain, count_plateau, check_startup_done,
  check_drain_done, probe_bw_gain_num, update_probe_bw, enter_probe_rtt, reduce_cwnd,
  mark_probe_start, restored, leave_probe_rtt, end_probe, hold_probe_rtt, check_probe_rtt, target,
  next_cwnd, update_control, on_sent, run_machine, on_ack, on_loss,
}

-- The pacing gain of a state.
abbrev pub state_num : BbrState → ℕ → ℕ
state_num BbrState.startup phase = 277
state_num BbrState.drain phase = 100
state_num BbrState.probe_bw phase = probe_bw_gain_num phase
state_num BbrState.probe_rtt phase = 100

abbrev pub state_den : BbrState → ℕ
state_den BbrState.drain = 277
state_den _ = 100

-- Is the pipe known to be full in this state? PROBE_RTT is entered from any state.
abbrev pub fits_state : BbrState → Bool → Bool
fits_state BbrState.startup filled = not filled
fits_state BbrState.drain filled = filled
fits_state BbrState.probe_bw filled = filled
fits_state BbrState.probe_rtt filled = true

unfoldable pub IsConsistent : Bbr → Type 0
IsConsistent b =
    (b.pacing_gain_num ≡ state_num b.state b.cycle_index)
    × (b.pacing_gain_den ≡ state_den b.state)
    × (fits_state b.state b.filled_pipe ≡ true)
    × (b.cwnd_gain_num ≡ 200)
    × (b.cwnd_gain_den ≡ 100)
    × (b.cycle_index < 8)
    × (min_cwnd ≤ b.cwnd)

state-cases :
    (s : BbrState)
    → (s ≡ BbrState.startup)
      ⊎ (s ≡ BbrState.drain)
      ⊎ (s ≡ BbrState.probe_bw)
      ⊎ (s ≡ BbrState.probe_rtt)
state-cases BbrState.startup = inl refl
state-cases BbrState.drain = inr (inl refl)
state-cases BbrState.probe_bw = inr (inr (inl refl))
state-cases BbrState.probe_rtt = inr (inr (inr refl))

init_state-IsConsistent : IsConsistent init_state
unfolding init_state IsConsistent
init_state-IsConsistent = (refl, refl, refl, refl, refl, omega arith, omega arith)

pub update_model-IsConsistent :
    (b : Bbr) (info : AckInfo) → IsConsistent b → IsConsistent (update_model b info)
unfolding IsConsistent update_model update_rt_prop update_bandwidth update_round
update_model-IsConsistent b info h = ground arith

enter_drain-IsConsistent : (b : Bbr) → IsConsistent b → IsConsistent (enter_drain b)
unfolding IsConsistent enter_drain
enter_drain-IsConsistent b h = ground arith

check_startup_done-IsConsistent : (b : Bbr) → IsConsistent b → IsConsistent (check_startup_done b)
unfolding IsConsistent check_startup_done count_plateau enter_drain
check_startup_done-IsConsistent b h = ground arith

check_drain_done-IsConsistent : (b : Bbr) → IsConsistent b → IsConsistent (check_drain_done b)
unfolding IsConsistent check_drain_done probe_bw_gain_num
check_drain_done-IsConsistent b h = elim (state-cases b.state) [
  | inl e ↦ ground (arith, e, h)
  | inr (inl e) ↦ ground (arith, e, h)
  | inr (inr (inl e)) ↦ ground (arith, e, h)
  | inr (inr (inr e)) ↦ ground (arith, e, h)
]

update_probe_bw-IsConsistent :
    (b : Bbr) (now_us : ℕ) → IsConsistent b → IsConsistent (update_probe_bw b now_us)
unfolding IsConsistent update_probe_bw
update_probe_bw-IsConsistent b now_us h = elim (state-cases b.state) [
  | inl e ↦ ground (arith, e, h)
  | inr (inl e) ↦ ground (arith, e, h)
  | inr (inr (inl e)) ↦ ground (arith, e, h)
  | inr (inr (inr e)) ↦ ground (arith, e, h)
]

enter_probe_rtt-IsConsistent : (b : Bbr) → IsConsistent b → IsConsistent (enter_probe_rtt b)
unfolding IsConsistent enter_probe_rtt
enter_probe_rtt-IsConsistent b h = ground (arith, h)

-- Outside the probe the check leaves everything; inside it the window shrinks to its minimum.
reduced-IsConsistent :
    (b : Bbr) (now_us : ℕ) → IsConsistent b → IsConsistent (mark_probe_start (reduce_cwnd b) now_us)
unfolding IsConsistent mark_probe_start reduce_cwnd
reduced-IsConsistent b now_us h = ground (arith, h)

reduce_cwnd-IsConsistent : (b : Bbr) → IsConsistent b → IsConsistent (reduce_cwnd b)
unfolding IsConsistent reduce_cwnd
reduce_cwnd-IsConsistent b h = ground (arith, h)

end_probe-IsConsistent : (b : Bbr) (now_us : ℕ) → IsConsistent b → IsConsistent (end_probe b now_us)
unfolding IsConsistent end_probe leave_probe_rtt restored
end_probe-IsConsistent b now_us h = ground (arith, h)

hold_probe_rtt-IsConsistent :
    (b : Bbr) (now_us : ℕ) → IsConsistent b → IsConsistent (hold_probe_rtt b now_us)
unfolding hold_probe_rtt
hold_probe_rtt-IsConsistent b now_us h =
    elim (Bool-cases (leb (reduce_cwnd b).bytes_in_flight 4800)) [
      | inl low ↦ rw low (end_probe-IsConsistent _ now_us (reduced-IsConsistent b now_us h))
      | inr high ↦ rw high (reduce_cwnd-IsConsistent b h)
    ]

check_probe_rtt-IsConsistent :
    (b : Bbr) (now_us : ℕ) → IsConsistent b → IsConsistent (check_probe_rtt b now_us)
unfolding check_probe_rtt
check_probe_rtt-IsConsistent b now_us h =
    elim (Bool-cases (is_probe_rtt (enter_probe_rtt b).state)) [
      | inl inside ↦
          rw inside (hold_probe_rtt-IsConsistent _ now_us (enter_probe_rtt-IsConsistent b h))
      | inr outside ↦ rw outside (enter_probe_rtt-IsConsistent b h)
    ]

pub run_machine-IsConsistent :
    (b : Bbr) (now_us : ℕ) → IsConsistent b → IsConsistent (run_machine b now_us)
unfolding run_machine
run_machine-IsConsistent b now_us h = check_probe_rtt-IsConsistent _ now_us (
    update_probe_bw-IsConsistent _ now_us
      (check_drain_done-IsConsistent _ (check_startup_done-IsConsistent b h)))

update_control-IsConsistent : (b : Bbr) → IsConsistent b → IsConsistent (update_control b)
unfolding IsConsistent update_control next_cwnd target
update_control-IsConsistent b h = ground (arith, h)

-- An acknowledgement keeps the gains and the window consistent with the state.
pub on_ack-IsConsistent : (b : Bbr) (info : AckInfo) → IsConsistent b → IsConsistent (on_ack b info)
unfolding IsConsistent on_ack
on_ack-IsConsistent b info h = update_control-IsConsistent _ (
    run_machine-IsConsistent _ info.now_us
      (update_model-IsConsistent (record b { bytes_in_flight = info.bytes_in_flight }) info h))

pub on_loss-IsConsistent :
    (b : Bbr) (info : LossInfo) → IsConsistent b → IsConsistent (on_loss b info)
unfolding IsConsistent on_loss enter_drain
on_loss-IsConsistent b info h = ground (arith, h)

-- The events that the connection reports.
pub data Event : Type 0 where
  sent : ℕ → Event
  acked : AckInfo → Event
  lost : LossInfo → Event

unfoldable pub handle : Bbr → Event → Bbr
handle b (Event.sent bytes_in_flight) = on_sent b bytes_in_flight
handle b (Event.acked info) = on_ack b info
handle b (Event.lost info) = on_loss b info

handle-IsConsistent : (b : Bbr) (e : Event) → IsConsistent b → IsConsistent (handle b e)
unfolding handle IsConsistent on_sent
handle-IsConsistent b (Event.sent n) h = h
handle-IsConsistent b (Event.acked info) h = on_ack-IsConsistent b info h
handle-IsConsistent b (Event.lost info) h = on_loss-IsConsistent b info h

-- The states that a connection can bring the controller to.
pub data Reachable : Bbr → Type 0 where
  begun : Reachable init_state
  after : (b : Bbr) (e : Event) → Reachable b → Reachable (handle b e)

-- In every reachable state the pacing gain is the one of the state (of its phase, in PROBE_BW), the
-- window's gain is 2, the phase is one of the eight, the window has its minimum, and the pipe is
-- known to be full exactly in DRAIN and PROBE_BW, PROBE_RTT aside.
pub Reachable-IsConsistent : (b : Bbr) → Reachable b → IsConsistent b
Reachable-IsConsistent b Reachable.begun = init_state-IsConsistent
Reachable-IsConsistent b (Reachable.after c e r) =
    handle-IsConsistent c e (Reachable-IsConsistent c r)
