-- ===== src/Bbr/Window.antt =====
-- The congestion window and the burst size.
use nxp.Prelude.{ℕ, ◌*◌, ◌≤◌, ◌≡◌, inl, inr, arith, true, false, leb, Bool-cases}
use nxp.Bbr.{
  Bbr, AckInfo, is_probe_rtt, max_datagram_size, update_model, check_startup_done, check_drain_done,
  update_probe_bw, enter_probe_rtt, reduce_cwnd, mark_probe_start, restored, leave_probe_rtt,
  end_probe, hold_probe_rtt, check_probe_rtt, next_cwnd, quantum, update_control, run_machine,
  on_ack,
}
use nxp.Bbr.Consistent.{IsConsistent, run_machine-IsConsistent, update_model-IsConsistent}

abbrev acked_state : Bbr → AckInfo → Bbr
acked_state b info =
    run_machine (update_model (record b { bytes_in_flight = info.bytes_in_flight }) info)
      info.now_us

-- Outside PROBE_RTT the window is at least the target and, once the pipe is full, at most twice it.
-- The burst is between two packets and 64 KB.
abbrev pub IsPaced : Bbr → Type 0
IsPaced b =
    (2 * max_datagram_size ≤ b.send_quantum)
    × (b.send_quantum ≤ 64 * 1024)
    × (is_probe_rtt b.state ≡ false → b.target_cwnd ≤ b.cwnd)
    × (is_probe_rtt b.state ≡ false → b.filled_pipe ≡ true → b.cwnd ≤ 2 * b.target_cwnd)

update_control-IsPaced : (b : Bbr) → IsPaced (update_control b)
unfolding update_control next_cwnd quantum
update_control-IsPaced b =
    (ground arith, ground arith, λ e. ground (arith, e), λ e f. ground (arith, e, f))

-- After every acknowledgement, from any state: a burst of at least two packets and at most 64 KB, and
-- outside PROBE_RTT a window of at least the target, and of at most twice the target once the pipe is full.
pub on_ack-IsPaced : (b : Bbr) (info : AckInfo) → IsPaced (on_ack b info)
unfolding on_ack
on_ack-IsPaced b info = update_control-IsPaced (acked_state b info)

end_probe-reduced :
    (b : Bbr) (now_us : ℕ)
    → b.cwnd ≤ 4800
    → is_probe_rtt (end_probe b now_us).state ≡ true
    → (end_probe b now_us).cwnd ≤ 4800
unfolding end_probe leave_probe_rtt restored
end_probe-reduced b now_us h e = ground (arith, h, e)

hold-reduced :
    (b : Bbr) (now_us : ℕ)
    → is_probe_rtt (hold_probe_rtt b now_us).state ≡ true
    → (hold_probe_rtt b now_us).cwnd ≤ 4800
unfolding hold_probe_rtt
hold-reduced b now_us = elim (Bool-cases (leb (reduce_cwnd b).bytes_in_flight 4800)) [
  | inl low ↦
      rw low (end_probe-reduced (mark_probe_start (reduce_cwnd b) now_us) now_us (marked b now_us))
  | inr high ↦ rw high (λ e. reduced b)
]
  where
    reduced : (b : Bbr) → (reduce_cwnd b).cwnd ≤ 4800
    reduced b = unfold reduce_cwnd in ground arith

    marked : (b : Bbr) (now_us : ℕ) → (mark_probe_start (reduce_cwnd b) now_us).cwnd ≤ 4800
    marked b now_us = unfold mark_probe_start reduce_cwnd in ground arith

check-reduced :
    (b : Bbr) (now_us : ℕ)
    → is_probe_rtt (check_probe_rtt b now_us).state ≡ true
    → (check_probe_rtt b now_us).cwnd ≤ 4800
unfolding check_probe_rtt
check-reduced b now_us = elim (Bool-cases (is_probe_rtt (enter_probe_rtt b).state)) [
  | inl inside ↦ rw inside (hold-reduced (enter_probe_rtt b) now_us)
  | inr outside ↦ rw outside (λ e. absurd (ground (arith, outside, e)))
]

-- In PROBE_RTT the window that an acknowledgement leaves is exactly four packets.
pub on_ack-probe_rtt_window :
    (b : Bbr) (info : AckInfo)
    → IsConsistent b
    → is_probe_rtt (on_ack b info).state ≡ true
    → (on_ack b info).cwnd ≡ 4800
unfolding IsConsistent on_ack update_control next_cwnd run_machine
on_ack-probe_rtt_window b info h e =
    let model = update_model (record b { bytes_in_flight = info.bytes_in_flight }) info in
    let consistent =
      run_machine-IsConsistent model info.now_us
        (update_model-IsConsistent (record b { bytes_in_flight = info.bytes_in_flight }) info h) in
    let small =
      check-reduced (update_probe_bw (check_drain_done (check_startup_done model)) info.now_us)
        info.now_us e in
    rw e (omega (arith, small, consistent))
