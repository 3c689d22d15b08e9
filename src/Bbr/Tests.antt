-- ===== src/Bbr/Tests.antt =====
-- BBR on concrete acknowledgements.
use nxp.Prelude.{ℕ, ◌≡◌, refl, true, false, [], ◌∷◌}
use nxp.Bbr.{
  Bbr, BbrState, AckInfo, init_state, on_ack, on_loss, is_probe_rtt, run_machine, check_probe_rtt,
  enter_probe_rtt, hold_probe_rtt, end_probe, mark_probe_start, reduce_cwnd, update_control,
  check_startup_done, update_model, update_rt_prop, update_bandwidth, update_round, enter_drain,
  check_drain_done, update_probe_bw, bdp,
}
use nxp.Bbr.Consistent.{IsConsistent, Event, handle, Reachable, Reachable-IsConsistent}
use nxp.Bbr.Window.{IsPaced, on_ack-IsPaced}
use nxp.Bbr.Probe.{ack_all, after_probe, ack_all-probe_rtt}

-- An acknowledgement at `now_us`, with `in_flight` bytes left.
abbrev ack_at : ℕ → ℕ → AckInfo
ack_at now_us in_flight = record {
  now_us = now_us;
  rtt_us = 50000;
  bytes_in_flight = in_flight;
  delivery_rate_bps = 1000000;
  round_count = 1;
  is_app_limited = false;
  round_start = true;
}

-- Two acknowledgements and a loss.
abbrev events : Bbr
events =
    handle
      (handle (handle init_state (Event.acked (ack_at 60000 9600)))
        (Event.acked (ack_at 120000 9600)))
      (Event.lost (record { lost_bytes = 4000; bytes_in_flight = 9600 }))

events-Reachable : Reachable events
events-Reachable = Reachable.after _ _ (Reachable.after _ _ (Reachable.after _ _ Reachable.begun))

Reachable-IsConsistent_example : IsConsistent events
Reachable-IsConsistent_example = Reachable-IsConsistent events events-Reachable

on_ack-IsPaced_example : IsPaced (on_ack init_state (ack_at 60000 9600))
on_ack-IsPaced_example = on_ack-IsPaced init_state (ack_at 60000 9600)

-- A controller in PROBE_BW whose round-trip time is too old: it still has the mark of a probe before.
abbrev before_probe : Bbr
before_probe = record init_state {
  state = BbrState.probe_bw;
  cwnd = 100000;
  filled_pipe = true;
  rt_prop_us = 50000;
  rt_prop_stamp = 60000;
  rt_prop_expired = true;
  probe_rtt_done = true;
  probe_rtt_done_stamp = 70000;
}

entered_probe : is_probe_rtt (on_ack before_probe (ack_at 20000000 9600)).state ≡ true
unfolding on_ack run_machine check_probe_rtt enter_probe_rtt hold_probe_rtt end_probe
    mark_probe_start reduce_cwnd update_control update_probe_bw check_drain_done check_startup_done
    update_model update_rt_prop update_bandwidth update_round init_state
entered_probe = refl

-- The packets in flight are few at 20.1 s; the acknowledgement at 20.4 s ends the probe.
ack_all-probe_rtt_example :
    let entry = on_ack before_probe (ack_at 20000000 9600) in
    let held = ack_all entry (ack_at 20100000 4800 ∷ []) in
    (held.state ≡ BbrState.probe_rtt)
    × ((on_ack held (ack_at 20400000 4800)).state ≡ after_probe entry.filled_pipe)
unfolding init_state
ack_all-probe_rtt_example =
    ack_all-probe_rtt before_probe (ack_at 20000000 9600) (ack_at 20400000 4800)
      (ack_at 20100000 4800 ∷ []) refl entered_probe (refl, (refl, tt))

-- PROBE_BW is entered in the phase that probes for bandwidth, but its stamp is not set: the update that
-- follows in the same acknowledgement goes on to the phase that drains.
abbrev drained : Bbr
drained = record init_state {
  state = BbrState.drain;
  filled_pipe = true;
  rt_prop_us = 50000;
  btl_bw = 1000000;
  bytes_in_flight = 4800;
}

first_phase_skipped : (update_probe_bw (check_drain_done drained) 900000).cycle_index ≡ 1
unfolding update_probe_bw check_drain_done init_state bdp
first_phase_skipped = refl

-- Losses of different rounds add up: nothing resets `loss_in_round`.
abbrev lossy : ℕ → Bbr
lossy n = record init_state { loss_in_round = n }

old_losses_count :
    (on_loss (lossy 2000) (record { lost_bytes = 400; bytes_in_flight = 11400 })).state
    ≡ BbrState.drain
unfolding on_loss init_state enter_drain
old_losses_count = refl
