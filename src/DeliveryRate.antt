-- ===== src/DeliveryRate.antt =====
-- Delivery-rate samples: src/congestion/delivery_rate.c and delivery_rate.h.
pub mod Rounds
mod Tests
use nxp.Prelude.{
  ℕ, ◌+◌, ◌-◌, ◌*◌, ◌/◌, ◌%◌, Bool, true, false, ◌&&◌, ◌||◌, ltb, leb, ◌==◌, if◌then◌else◌,
}
use nxp.Prelude.Word.{add64, sub64, mul64}

-- `nxp_dr_pkt_state`
pub record PktState : Type 0 where
  pub delivered : ℕ
  pub delivered_time : ℕ
  pub first_sent_time : ℕ
  pub is_app_limited : Bool
  pub app_limited_at : ℕ

-- `nxp_delivery_rate`
pub record DeliveryRate : Type 0 where
  pub delivered : ℕ
  pub delivered_time : ℕ
  pub first_sent_time : ℕ
  pub rate_sample_bps : ℕ
  pub rate_interval_us : ℕ
  pub rate_delivered : ℕ
  pub rate_is_app_limited : Bool
  pub app_limited : Bool
  pub app_limited_at : ℕ
  pub round_count : ℕ
  pub next_round_delivered : ℕ
  pub round_start : Bool

-- `nxp_dr_init`
unfoldable pub init : DeliveryRate
init = record {
  delivered = 0;
  delivered_time = 0;
  first_sent_time = 0;
  rate_sample_bps = 0;
  rate_interval_us = 0;
  rate_delivered = 0;
  rate_is_app_limited = false;
  app_limited = false;
  app_limited_at = 0;
  round_count = 0;
  next_round_delivered = 0;
  round_start = false;
}

-- With nothing in flight the clocks start now.
unfoldable pub start_clock : DeliveryRate → ℕ → DeliveryRate
start_clock dr now_us =
    if dr.first_sent_time == 0
    then record dr { first_sent_time = now_us; delivered_time = now_us }
    else dr

unfoldable pub snapshot : DeliveryRate → PktState
snapshot dr = record {
  delivered = dr.delivered;
  delivered_time = dr.delivered_time;
  first_sent_time = dr.first_sent_time;
  is_app_limited = dr.app_limited;
  app_limited_at = dr.app_limited_at;
}

-- `nxp_dr_on_packet_sent`: the new state, and what it stores in `out`.
unfoldable pub on_packet_sent : DeliveryRate → ℕ → DeliveryRate × PktState
on_packet_sent dr now_us =
    let started = start_clock dr now_us in
    (record started { first_sent_time = now_us }, snapshot started)

unfoldable pub count_round : DeliveryRate → PktState → DeliveryRate
count_round dr pkt_state =
    if leb dr.next_round_delivered pkt_state.delivered
    then record dr {
      next_round_delivered = dr.delivered;
      round_count = add64 dr.round_count 1;
      round_start = true;
    }
    else record dr { round_start = false }

-- `now - then`, or 0.
unfoldable pub elapsed : ℕ → ℕ → ℕ
elapsed now since = if ltb since now then now - since else 0

unfoldable pub sample_interval : DeliveryRate → PktState → ℕ → ℕ
sample_interval dr pkt_state now_us =
    let send_elapsed = elapsed dr.first_sent_time pkt_state.first_sent_time in
    let ack_elapsed = elapsed now_us pkt_state.delivered_time in
    if ltb ack_elapsed send_elapsed then send_elapsed else ack_elapsed

unfoldable pub store_sample : DeliveryRate → PktState → ℕ → ℕ → DeliveryRate
store_sample dr pkt_state delta_delivered interval = record dr {
  rate_interval_us = interval;
  rate_delivered = delta_delivered;
  rate_is_app_limited = pkt_state.is_app_limited;
  rate_sample_bps = mul64 delta_delivered 1000000 / interval;
  app_limited = dr.app_limited && leb dr.delivered dr.app_limited_at;
}

unfoldable pub take_sample : DeliveryRate → PktState → ℕ → ℕ → DeliveryRate
take_sample dr pkt_state acked_bytes now_us =
    let delta_delivered = sub64 dr.delivered pkt_state.delivered in
    let interval = sample_interval dr pkt_state now_us in
    if interval == 0 || delta_delivered == 0
    then record dr {
      round_start = leb (sub64 dr.next_round_delivered acked_bytes) pkt_state.delivered;
    }
    else store_sample dr pkt_state delta_delivered interval

unfoldable pub on_packet_acked : DeliveryRate → PktState → ℕ → ℕ → DeliveryRate
on_packet_acked dr pkt_state acked_bytes now_us =
    let delivered : DeliveryRate = record dr {
      delivered = add64 dr.delivered acked_bytes;
      delivered_time = now_us;
    } in
    take_sample (count_round delivered pkt_state) pkt_state acked_bytes now_us

unfoldable pub set_app_limited : DeliveryRate → DeliveryRate
set_app_limited dr = record dr { app_limited = true; app_limited_at = dr.delivered }

unfoldable pub clear_app_limited : DeliveryRate → DeliveryRate
clear_app_limited dr = record dr { app_limited = false }

-- `nxp_dr_is_round_start` and `nxp_dr_get_rate`
unfoldable pub is_round_start : DeliveryRate → Bool
is_round_start dr = dr.round_start

unfoldable pub get_rate : DeliveryRate → ℕ
get_rate dr = dr.rate_sample_bps
