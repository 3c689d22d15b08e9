-- ===== src/Ack/Types.antt =====
-- The state of src/core/ack.c: `nxp_ack_state` and what it holds, of src/core/connection_internal.h.
use nxp.Prelude.{ℕ, ◌/◌, List, [], Bool, false, ltb, if◌then◌else◌}
use nxp.Prelude.Word.{u64_max, add64, mul64}

abbrev pub ack_delay_us : ℕ
ack_delay_us = 25000

abbrev pub max_recv_ranges : ℕ
max_recv_ranges = 64

abbrev pub loss_delay_factor : ℕ
loss_delay_factor = 9

abbrev pub packet_reorder_thresh : ℕ
packet_reorder_thresh = 3

abbrev pub initial_rtt_us : ℕ
initial_rtt_us = 333000

-- Both ends included.
pub record RecvRange : Type 0 where
  pub start : ℕ
  pub end : ℕ

pub record StreamFrameRecord : Type 0 where
  pub stream_id : ℕ
  pub offset : ℕ
  pub len : ℕ
  pub fin : Bool

-- `nxp_dr_pkt_state` of src/congestion/delivery_rate.h, which the tracker only stores.
pub record DrPktState : Type 0 where
  pub delivered : ℕ
  pub delivered_time : ℕ
  pub first_sent_time : ℕ
  pub is_app_limited : Bool
  pub app_limited_at : ℕ

-- `frames` holds the `frame_count` records in use.
pub record SentPkt : Type 0 where
  pub pkt_num : ℕ
  pub sent_time : ℕ
  pub sent_bytes : ℕ
  pub ack_eliciting : Bool
  pub in_flight : Bool
  pub declared_lost : Bool
  pub frames : List StreamFrameRecord
  pub dr_state : DrPktState

-- `recv_ranges` and `sent` hold the `recv_range_count` and `sent_count` elements in use.
pub record AckState : Type 0 where
  pub recv_ranges : List RecvRange
  pub largest_recv_pn : ℕ
  pub largest_recv_time : ℕ
  pub ack_needed : Bool
  pub ack_delay_timer : ℕ
  pub smoothed_rtt : ℕ
  pub rtt_var : ℕ
  pub min_rtt : ℕ
  pub latest_rtt : ℕ
  pub has_rtt : Bool
  pub sent : List SentPkt
  pub sent_cap : ℕ
  pub bytes_in_flight : ℕ
  pub loss_time : ℕ
  pub pto_count : ℕ
  pub time_of_last_ack_eliciting : ℕ

unfoldable pub u64_larger : ℕ → ℕ → ℕ
u64_larger a b = if ltb b a then a else b

unfoldable pub u64_smaller : ℕ → ℕ → ℕ
u64_smaller a b = if ltb a b then a else b

-- `nxp_ack_init`; the allocation succeeds.
unfoldable pub init : AckState
init = record {
  recv_ranges = [];
  largest_recv_pn = 0;
  largest_recv_time = 0;
  ack_needed = false;
  ack_delay_timer = 0;
  smoothed_rtt = initial_rtt_us;
  rtt_var = initial_rtt_us / 2;
  min_rtt = u64_max;
  latest_rtt = 0;
  has_rtt = false;
  sent = [];
  sent_cap = 256;
  bytes_in_flight = 0;
  loss_time = u64_max;
  pto_count = 0;
  time_of_last_ack_eliciting = 0;
}

-- `nxp_ack_cleanup`
unfoldable pub cleanup : AckState → AckState
cleanup ack = record ack { sent = []; sent_cap = 0 }

-- `compute_pto`
unfoldable pub compute_pto : AckState → ℕ
compute_pto ack =
    let rtt = if ack.has_rtt then ack.smoothed_rtt else initial_rtt_us in
    let var = if ack.has_rtt then ack.rtt_var else initial_rtt_us / 2 in
    add64 (add64 rtt (u64_larger (mul64 4 var) 1000)) ack_delay_us
