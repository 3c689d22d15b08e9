-- ===== src/DeliveryRate/Tests.antt =====
-- Delivery-rate samples of concrete packets.
use nxp.Prelude.{ℕ, ◌+◌, ◌%◌, ◌^◌, ◌≡◌, refl, arith, List, [], ◌∷◌, true, false}
use nxp.DeliveryRate.{
  DeliveryRate, PktState, init, start_clock, snapshot, on_packet_sent, count_round, elapsed,
  sample_interval, store_sample, take_sample, on_packet_acked,
}
use nxp.DeliveryRate.Rounds.{Acked, acked_all, one_round_a_flight}

abbrev sent_at : ℕ → ℕ → PktState
sent_at delivered now_us = record {
  delivered = delivered;
  delivered_time = now_us;
  first_sent_time = now_us;
  is_app_limited = false;
  app_limited_at = 0;
}

abbrev busy : DeliveryRate
busy = record init {
  delivered = 2000;
  next_round_delivered = 1000;
  first_sent_time = 500;
  delivered_time = 500;
  round_count = 4;
}

-- The first acknowledgement is of a packet of the current round, the other two were in flight.
abbrev flight : List Acked
flight =
    record { pkt_state = sent_at 1200 600; acked_bytes = 100; now_us = 900 }
    ∷ record { pkt_state = sent_at 1500 650; acked_bytes = 100; now_us = 950 }
    ∷ record { pkt_state = sent_at 2000 700; acked_bytes = 100; now_us = 990 }
    ∷ []

one_round_a_flight_example : (acked_all busy flight).round_count ≡ (4 + 1) % 2 ^ 64
unfolding init nxp.DeliveryRate.Rounds.total_bytes
one_round_a_flight_example =
    one_round_a_flight busy
      (record { pkt_state = sent_at 1200 600; acked_bytes = 100; now_us = 900 }) _ (omega arith)
      (omega arith) (omega arith, (omega arith, tt)) (omega arith)

-- A sample without an interval: the flag says that a round has started, and the count does not.
abbrev old_packet : DeliveryRate
old_packet = on_packet_acked busy (sent_at 950 900) 100 900

flag_without_round : (old_packet.round_start ≡ true) × (old_packet.round_count ≡ 4)
unfolding on_packet_acked take_sample store_sample count_round sample_interval elapsed init
flag_without_round = (refl, refl)

-- 100 bytes more than at the snapshot, in 300 microseconds.
sampled : (on_packet_acked busy (sent_at 2000 600) 100 900).rate_sample_bps ≡ 333333
unfolding on_packet_acked take_sample store_sample count_round sample_interval elapsed init
sampled = refl
