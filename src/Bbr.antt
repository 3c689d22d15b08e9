-- ===== src/Bbr.antt =====
-- BBR congestion control: src/congestion/bbr.c, bbr_internal.h and the event records of
-- cc_interface.h. `create` and `destroy` only allocate and free the state; `loss_round_start` and
-- `initialized` are never read and are left out. Times and rates are 64-bit words.
pub mod Consistent
pub mod Probe
pub mod Window
mod Tests
use nxp.Prelude.{
  ℕ, zero, suc, ◌+◌, ◌-◌, ◌*◌, ◌/◌, ◌%◌, Bool, true, false, not, ◌&&◌, ◌||◌, ltb, leb, ◌==◌,
  if◌then◌else◌,
}
use nxp.Prelude.Word.{add64, sub64, mul64, add32, u8_mod}
use nxp.WindowedFilter
use nxp.WindowedFilter.{WindowedFilter}

abbrev pub max_datagram_size : ℕ
max_datagram_size = 1200

-- `NXP_BBR_MIN_CWND`
abbrev pub min_cwnd : ℕ
min_cwnd = 4800

abbrev pub probe_rtt_duration_us : ℕ
probe_rtt_duration_us = 200000

abbrev pub rtprop_window_us : ℕ
rtprop_window_us = 10000000

pub data BbrState : Type 0 where
  startup : BbrState
  drain : BbrState
  probe_bw : BbrState
  probe_rtt : BbrState

abbrev pub is_startup : BbrState → Bool
is_startup BbrState.startup = true
is_startup _ = false

abbrev pub is_drain : BbrState → Bool
is_drain BbrState.drain = true
is_drain _ = false

abbrev pub is_probe_bw : BbrState → Bool
is_probe_bw BbrState.probe_bw = true
is_probe_bw _ = false

abbrev pub is_probe_rtt : BbrState → Bool
is_probe_rtt BbrState.probe_rtt = true
is_probe_rtt _ = false

pub record Bbr : Type 0 where
  pub state : BbrState
  pub bw_filter : WindowedFilter
  pub btl_bw : ℕ
  pub rt_prop_us : ℕ
  pub rt_prop_stamp : ℕ
  pub pacing_rate : ℕ
  pub cwnd : ℕ
  pub send_quantum : ℕ
  pub target_cwnd : ℕ
  pub pacing_gain_num : ℕ
  pub pacing_gain_den : ℕ
  pub cwnd_gain_num : ℕ
  pub cwnd_gain_den : ℕ
  pub cycle_index : ℕ
  pub cycle_stamp : ℕ
  pub filled_pipe : Bool
  pub full_bw : ℕ
  pub full_bw_count : ℕ
  pub probe_rtt_done : Bool
  pub probe_rtt_done_stamp : ℕ
  pub rt_prop_expired : Bool
  pub round_count : ℕ
  pub round_start : Bool
  pub app_limited : Bool
  pub bytes_in_flight : ℕ
  pub prior_cwnd : ℕ
  pub loss_in_round : ℕ

-- `nxp_cc_ack_info`, the fields that BBR reads.
pub record AckInfo : Type 0 where
  pub now_us : ℕ
  pub rtt_us : ℕ
  pub bytes_in_flight : ℕ
  pub delivery_rate_bps : ℕ
  pub round_count : ℕ
  pub is_app_limited : Bool
  pub round_start : Bool

-- `nxp_cc_loss_info`, the fields that BBR reads.
pub record LossInfo : Type 0 where
  pub lost_bytes : ℕ
  pub bytes_in_flight : ℕ

unfoldable pub apply_gain : ℕ → ℕ → ℕ → ℕ
apply_gain val num den = if den == 0 then val else mul64 val num / den

-- `bbr_bdp`
unfoldable pub bdp : Bbr → ℕ
bdp b =
    if b.btl_bw == 0 || b.rt_prop_us == 0
    then min_cwnd
    else let product = mul64 b.btl_bw b.rt_prop_us / 1000000 in
      if ltb min_cwnd product then product else min_cwnd

-- `bbr_inflight`
unfoldable pub inflight : Bbr → ℕ → ℕ → ℕ
inflight b gain_num gain_den = apply_gain (bdp b) gain_num gain_den

-- `nxp_bbr_init_state`
unfoldable pub init_state : Bbr
init_state = record {
  state = BbrState.startup;
  bw_filter = WindowedFilter.init 10 true;
  btl_bw = 0;
  rt_prop_us = 0;
  rt_prop_stamp = 0;
  pacing_rate = 0;
  cwnd = 10 * max_datagram_size;
  send_quantum = max_datagram_size;
  target_cwnd = 0;
  pacing_gain_num = 277;
  pacing_gain_den = 100;
  cwnd_gain_num = 200;
  cwnd_gain_den = 100;
  cycle_index = 0;
  cycle_stamp = 0;
  filled_pipe = false;
  full_bw = 0;
  full_bw_count = 0;
  probe_rtt_done = false;
  probe_rtt_done_stamp = 0;
  rt_prop_expired = false;
  round_count = 0;
  round_start = false;
  app_limited = false;
  bytes_in_flight = 0;
  prior_cwnd = 0;
  loss_in_round = 0;
}

-- The three parts of `nxp_bbr_update_model`: the round, the bandwidth, the round-trip time.
unfoldable pub update_round : Bbr → AckInfo → Bbr
update_round b info = record b {
  round_count = info.round_count;
  round_start = info.round_start;
  app_limited = info.is_app_limited;
}

unfoldable pub updated_filter : Bbr → AckInfo → WindowedFilter
updated_filter b info =
    if not info.is_app_limited || ltb (WindowedFilter.get b.bw_filter) info.delivery_rate_bps
    then WindowedFilter.update b.bw_filter info.delivery_rate_bps b.round_count
    else b.bw_filter

unfoldable pub update_bandwidth : Bbr → AckInfo → Bbr
update_bandwidth b info =
    let filter = updated_filter b info in
    if ltb 0 info.delivery_rate_bps
    then record b { bw_filter = filter; btl_bw = WindowedFilter.get filter }
    else b

unfoldable pub update_rt_prop : Bbr → AckInfo → Bbr
update_rt_prop b info =
    let rtt_expired = ltb rtprop_window_us (sub64 info.now_us b.rt_prop_stamp) in
    let renewed = leb info.rtt_us b.rt_prop_us || b.rt_prop_us == 0 || rtt_expired in
    if ltb 0 info.rtt_us
    then record b {
      rt_prop_us = if renewed then info.rtt_us else b.rt_prop_us;
      rt_prop_stamp = if renewed then info.now_us else b.rt_prop_stamp;
      rt_prop_expired = rtt_expired;
    }
    else b

unfoldable pub update_model : Bbr → AckInfo → Bbr
update_model b info = update_rt_prop (update_bandwidth (update_round b info) info) info

unfoldable pub enter_drain : Bbr → Bbr
enter_drain b = record b {
  filled_pipe = true;
  state = BbrState.drain;
  pacing_gain_num = 100;
  pacing_gain_den = 277;
}

-- One more round without growth; the third one ends the startup.
unfoldable pub count_plateau : Bbr → Bbr
count_plateau b =
    let counted : Bbr = record b { full_bw_count = add32 b.full_bw_count 1 } in
    if leb 3 counted.full_bw_count then enter_drain counted else counted

unfoldable pub check_startup_done : Bbr → Bbr
check_startup_done b =
    if not (is_startup b.state) || b.filled_pipe
    then b
    else if not b.round_start
    then b
    else if leb (apply_gain b.full_bw 125 100) b.btl_bw
    then record b { full_bw = b.btl_bw; full_bw_count = 0 }
    else count_plateau b

unfoldable pub check_drain_done : Bbr → Bbr
check_drain_done b =
    if not (is_drain b.state)
    then b
    else if leb b.bytes_in_flight (bdp b)
    then record b {
      state = BbrState.probe_bw;
      cycle_index = 0;
      pacing_gain_num = 125;
      pacing_gain_den = 100;
      cwnd_gain_num = 200;
      cwnd_gain_den = 100;
    }
    else b

-- `probe_bw_gain_num`; `probe_bw_gain_den` is 100 in every phase.
unfoldable pub probe_bw_gain_num : ℕ → ℕ
probe_bw_gain_num phase = if phase == 0 then 125 else if phase == 1 then 75 else 100

unfoldable pub update_probe_bw : Bbr → ℕ → Bbr
update_probe_bw b now_us =
    if not (is_probe_bw b.state)
    then b
    else if ltb 0 b.rt_prop_us && leb b.rt_prop_us (sub64 now_us b.cycle_stamp)
    then (let index = (b.cycle_index + 1) % 8 in
        record b {
          cycle_index = index;
          cycle_stamp = now_us;
          pacing_gain_num = probe_bw_gain_num index;
          pacing_gain_den = 100;
        })
    else b

-- The parts of `nxp_bbr_check_probe_rtt`.
unfoldable pub enter_probe_rtt : Bbr → Bbr
enter_probe_rtt b =
    if not (is_probe_rtt b.state) && b.rt_prop_expired && not b.app_limited
    then record b {
      prior_cwnd = b.cwnd;
      state = BbrState.probe_rtt;
      pacing_gain_num = 100;
      pacing_gain_den = 100;
      probe_rtt_done = false;
    }
    else b

unfoldable pub reduce_cwnd : Bbr → Bbr
reduce_cwnd b = if ltb 4800 b.cwnd then record b { cwnd = 4800 } else b

unfoldable pub mark_probe_start : Bbr → ℕ → Bbr
mark_probe_start b now_us =
    if not b.probe_rtt_done
    then record b { probe_rtt_done = true; probe_rtt_done_stamp = now_us }
    else b

unfoldable pub restored : Bbr → Bbr
restored b = record b {
  rt_prop_expired = false;
  cwnd = if ltb min_cwnd b.prior_cwnd then b.prior_cwnd else min_cwnd;
}

unfoldable pub leave_probe_rtt : Bbr → ℕ → Bbr
leave_probe_rtt b now_us =
    if b.filled_pipe
    then record b {
      state = BbrState.probe_bw;
      cycle_index = 0;
      cycle_stamp = now_us;
      pacing_gain_num = probe_bw_gain_num 0;
      pacing_gain_den = 100;
      cwnd_gain_num = 200;
      cwnd_gain_den = 100;
    }
    else record b {
      state = BbrState.startup;
      pacing_gain_num = 277;
      pacing_gain_den = 100;
      cwnd_gain_num = 200;
      cwnd_gain_den = 100;
    }

unfoldable pub end_probe : Bbr → ℕ → Bbr
end_probe b now_us =
    if b.probe_rtt_done && leb probe_rtt_duration_us (sub64 now_us b.probe_rtt_done_stamp)
    then leave_probe_rtt (restored b) now_us
    else b

unfoldable pub hold_probe_rtt : Bbr → ℕ → Bbr
hold_probe_rtt b now_us =
    let reduced = reduce_cwnd b in
    if leb reduced.bytes_in_flight 4800
    then end_probe (mark_probe_start reduced now_us) now_us
    else reduced

unfoldable pub check_probe_rtt : Bbr → ℕ → Bbr
check_probe_rtt b now_us =
    let entered = enter_probe_rtt b in
    if not (is_probe_rtt entered.state) then entered else hold_probe_rtt entered now_us

-- The parts of `nxp_bbr_update_control`.
unfoldable pub target : Bbr → ℕ
target b =
    let cwnd = inflight b b.cwnd_gain_num b.cwnd_gain_den in
    if ltb cwnd min_cwnd then min_cwnd else cwnd

unfoldable pub next_cwnd : Bbr → ℕ → ℕ
next_cwnd b target_cwnd =
    let raised = if ltb b.cwnd target_cwnd then target_cwnd else b.cwnd in
    if is_probe_rtt b.state
    then b.cwnd
    else if b.filled_pipe && ltb (mul64 target_cwnd 2) raised
    then target_cwnd
    else raised

unfoldable pub quantum : ℕ → ℕ
quantum pacing_rate =
    let burst = pacing_rate / 1000 in
    let floored = if ltb burst (2 * max_datagram_size) then 2 * max_datagram_size else burst in
    if ltb (64 * 1024) floored then 64 * 1024 else floored

unfoldable pub update_control : Bbr → Bbr
update_control b =
    let pacing_rate = apply_gain b.btl_bw b.pacing_gain_num b.pacing_gain_den in
    record b {
      pacing_rate = pacing_rate;
      target_cwnd = target b;
      cwnd = next_cwnd b (target b);
      send_quantum = quantum pacing_rate;
    }

-- The callbacks of `nxp_cc_bbr`.
unfoldable pub on_sent : Bbr → ℕ → Bbr
on_sent b bytes_in_flight = record b { bytes_in_flight = bytes_in_flight }

-- The state machine of `bbr_on_ack`, behind the update of the model.
unfoldable pub run_machine : Bbr → ℕ → Bbr
run_machine b now_us =
    check_probe_rtt (update_probe_bw (check_drain_done (check_startup_done b)) now_us) now_us

unfoldable pub on_ack : Bbr → AckInfo → Bbr
on_ack b info = update_control (
    run_machine (update_model (record b { bytes_in_flight = info.bytes_in_flight }) info)
      info.now_us)

unfoldable pub on_loss : Bbr → LossInfo → Bbr
on_loss b info =
    let lost : Bbr = record b {
      bytes_in_flight = info.bytes_in_flight;
      loss_in_round = add64 b.loss_in_round info.lost_bytes;
    } in
    if (is_startup lost.state && not lost.filled_pipe)
      && (ltb 0 lost.bytes_in_flight && ltb (lost.bytes_in_flight / 5) lost.loss_in_round)
    then enter_drain lost
    else lost

unfoldable pub get_cwnd : Bbr → ℕ
get_cwnd b = b.cwnd

unfoldable pub get_pacing_rate : Bbr → ℕ
get_pacing_rate b = b.pacing_rate

unfoldable pub in_slow_start : Bbr → Bool
in_slow_start b = is_startup b.state

unfoldable pub get_send_quantum : Bbr → ℕ
get_send_quantum b = b.send_quantum
