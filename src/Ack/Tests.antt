-- ===== src/Ack/Tests.antt =====
-- Runs of the acknowledgement tracker, and the theorems at concrete states.
use nxp.Prelude.{
  ℕ, ◌+◌, ◌<◌, ◌≡◌, refl, arith, List, [], ◌∷◌, some, true, false, ◌||◌, ◌==◌, ◌⊎◌, All, Any,
  filter, map,
}
use nxp.Prelude.Word.{u64_mod, u64_max}
use nxp.Frame.Types.{AckFrame}
use nxp.Ack.Types.{AckState, SentPkt, init, u64_larger}
use nxp.Ack.Recv.{on_pkt_recv, received}
use nxp.Ack.Recv.Ranges.{IsChain, Arrival, recv_all, received-on_pkt_recv, on_pkt_recv_replay}
use nxp.Ack.Build.{build_frame, is_acked}
use nxp.Ack.Build.Meaning.{is_acked-build_frame}
use nxp.Ack.Sent.{on_pkt_sent, on_ack_recv, on_loss_timeout, loss_delay}
use nxp.Ack.Sent.Tracked.{IsTracked, count, on_ack_recv-IsTracked}
use nxp.Ack.Sent.Lost.{
  is_unanswered, is_found_lost, is_kept, declare, IsCovered, IsDue, on_ack_recv_lem,
}

-- Packets 8, 9 and 5 have arrived.
abbrev two_ranges : AckState
two_ranges = record init {
  recv_ranges = record { start = 8; end = 9 } ∷ record { start = 5; end = 5 } ∷ [];
  largest_recv_pn = 9;
  largest_recv_time = 100;
}

two_ranges-IsChain : IsChain u64_mod two_ranges.recv_ranges
two_ranges-IsChain = (omega arith, omega arith, (omega arith, omega arith, tt))

arrivals :
    (on_pkt_recv (on_pkt_recv two_ranges 7 200 true) 6 300 true).recv_ranges
    ≡ record { start = 5; end = 9 } ∷ []
unfolding on_pkt_recv received nxp.Ack.Recv.contains nxp.Ack.Recv.insert nxp.Ack.Recv.extend
    nxp.Ack.Recv.extend_start
arrivals = refl

received-on_pkt_recv_example :
    let ack' = on_pkt_recv two_ranges 7 200 true in
    IsChain u64_mod ack'.recv_ranges
    × (received 7 ack'.recv_ranges ≡ (7 == 7 || received 7 two_ranges.recv_ranges))
received-on_pkt_recv_example =
    received-on_pkt_recv two_ranges 7 200 true 7 two_ranges-IsChain (omega arith) (omega arith)

-- Between the two copies packets 20 and 6 arrive.
abbrev between : List Arrival
between =
    record { pkt_num = 20; now_us = 300; ack_eliciting = true }
    ∷ record { pkt_num = 6; now_us = 400; ack_eliciting = false }
    ∷ []

on_pkt_recv_replay_example :
    let since = recv_all (on_pkt_recv two_ranges 7 200 true) between in
    on_pkt_recv since 7 900 true ≡ since
on_pkt_recv_replay_example =
    on_pkt_recv_replay two_ranges 7 200 900 true true between two_ranges-IsChain (omega arith)
      (omega arith) (omega arith, (omega arith, tt))

abbrev two_ranges_frame : AckFrame
two_ranges_frame = record {
  largest_acked = 9;
  ack_delay = 50;
  first_ack_range = 1;
  ranges = record { gap = 1; ack_range = 0 } ∷ [];
  has_ecn = false;
  ect0_count = 0;
  ect1_count = 0;
  ecn_ce_count = 0;
}

built : build_frame two_ranges 150 ≡ some two_ranges_frame
unfolding build_frame nxp.Ack.Build.build_ranges_from nxp.Ack.Build.build_ranges
built = refl

is_acked-build_frame_example : is_acked two_ranges_frame 5 ≡ received 5 two_ranges.recv_ranges
is_acked-build_frame_example =
    is_acked-build_frame two_ranges 150 two_ranges_frame 5 two_ranges-IsChain (omega arith) built

abbrev pkt_of : ℕ → ℕ → SentPkt
pkt_of n t = record {
  pkt_num = n;
  sent_time = t;
  sent_bytes = 1200;
  ack_eliciting = true;
  in_flight = true;
  declared_lost = false;
  frames = [];
  dr_state = record {
    delivered = 0;
    delivered_time = 0;
    first_sent_time = 0;
    is_app_limited = false;
    app_limited_at = 0;
  };
}

-- Packets 4, 5, 7 and 10 are in flight.
abbrev in_flight_4 : AckState
in_flight_4 = record init {
  sent = pkt_of 4 100 ∷ pkt_of 5 100 ∷ pkt_of 7 100 ∷ pkt_of 10 100 ∷ [];
  bytes_in_flight = 4800;
}

in_flight_4-IsTracked : IsTracked in_flight_4
in_flight_4-IsTracked = (refl, (refl, (refl, (refl, (refl, tt)))))

outcome :
    let out = on_ack_recv in_flight_4 two_ranges_frame 50100 in
    (out.acked ≡ pkt_of 5 100 ∷ [])
    × (out.ack.sent ≡ pkt_of 7 100 ∷ pkt_of 10 100 ∷ [])
    × (out.ack.bytes_in_flight ≡ 2400)
unfolding on_ack_recv nxp.Ack.Sent.walk_acked is_acked nxp.Ack.Build.acked_below
    nxp.Ack.Sent.detect_lost_packets nxp.Ack.Sent.walk_lost nxp.Ack.Sent.apply_sample
    nxp.Ack.Sent.rtt_sample nxp.Ack.Sent.place nxp.Ack.Sent.judge nxp.Ack.Sent.is_lost loss_delay
    u64_larger init nxp.Ack.Sent.bytes_after nxp.Ack.Sent.landed
outcome = (refl, refl, refl)

on_ack_recv-IsTracked_example :
    let out = on_ack_recv in_flight_4 two_ranges_frame 50100 in
    IsTracked out.ack
    × (count 4 out.ack.sent + count 4 out.acked + count 4 out.lost ≡ count 4 in_flight_4.sent)
on_ack_recv-IsTracked_example =
    on_ack_recv-IsTracked in_flight_4 two_ranges_frame 50100 4 in_flight_4-IsTracked

on_ack_recv_lem_example :
    let out = on_ack_recv in_flight_4 two_ranges_frame 50100 in
    let delay = loss_delay out.ack in
    let left = filter (is_unanswered two_ranges_frame) in_flight_4.sent in
    let timer = out.ack.loss_time in
    (out.acked ≡ filter (λ pkt. is_acked two_ranges_frame pkt.pkt_num) in_flight_4.sent)
    × (out.lost ≡ map declare (filter (is_found_lost delay 50100 9) left))
    × (out.ack.sent ≡ filter (is_kept delay 50100 9) left)
    × All (IsCovered delay 9 timer) out.ack.sent
    × ((timer ≡ u64_max) ⊎ Any (IsDue delay 9 timer) out.ack.sent)
    × (50100 < timer)
on_ack_recv_lem_example = on_ack_recv_lem in_flight_4 two_ranges_frame 50100 (omega arith)
