-- ===== src/Connection/Acked.antt =====
-- What becomes of the packets sent: `on_packet_acked` and `on_packet_lost` of src/core/connection.c, and
-- the calls that the tracker makes of them. The tracker reports its packets in order, with the bytes in
-- flight as they are at each of them; its other fields are the old ones during the calls for the packets
-- acknowledged, and no call looks at them for the packets lost.
use nxp.Prelude.{ℕ, ◌&&◌, ◌++◌, List, [], ◌∷◌, Option, none, some, false, ◌==◌, if◌then◌else◌}
use nxp.Prelude.Word.{add64, u64_max}
use nxp.Frame.Types.{AckFrame}
use nxp.Ack.Types.{SentPkt, DrPktState, StreamFrameRecord}
use nxp.Ack.Sent.{landed, walk_acked, on_ack_recv}
use nxp.Bbr
use nxp.Bbr.{AckInfo, LossInfo}
use nxp.Pacer
use nxp.DeliveryRate
use nxp.DeliveryRate.{PktState}
use nxp.Stream
use nxp.Scheduler
use nxp.Scheduler.{Sched, assign}
use nxp.Connection.{Conn}

unfoldable pub taken_at : DrPktState → PktState
taken_at d = record {
  delivered = d.delivered;
  delivered_time = d.delivered_time;
  first_sent_time = d.first_sent_time;
  is_app_limited = d.is_app_limited;
  app_limited_at = d.app_limited_at;
}

-- The application is told that it may write again.
unfoldable pub notify_writable : Conn → ℕ → Conn
notify_writable conn id =
    if conn.blocked id && conn.on_writable id
    then record conn {
      blocked = assign conn.blocked id false;
      writable_calls = conn.writable_calls ++ (id ∷ []);
    }
    else conn

-- One turn of the loop over the records of an acknowledged packet.
unfoldable pub ack_frame : Conn → StreamFrameRecord → Conn
ack_frame conn rec =
    if conn.streams rec.stream_id
    then notify_writable
        (record conn {
          stream_at =
              assign conn.stream_at rec.stream_id
                (Stream.on_ack (conn.stream_at rec.stream_id) rec.offset rec.len rec.fin);
        })
        rec.stream_id
    else conn

unfoldable pub ack_frames : Conn → List StreamFrameRecord → Conn
ack_frames conn [] = conn
ack_frames conn (rec ∷ recs) = ack_frames (ack_frame conn rec) recs

-- The delivery rate, the congestion controller and the pacer hear of it.
unfoldable pub acked_rate : Conn → SentPkt → ℕ → Conn
acked_rate conn pkt bytes_in_flight =
    let now_us = add64 pkt.sent_time conn.ack.latest_rtt in
    let rate =
      DeliveryRate.on_packet_acked conn.delivery_rate (taken_at pkt.dr_state) pkt.sent_bytes
        now_us in
    let info : AckInfo = record {
      now_us = now_us;
      rtt_us = conn.ack.latest_rtt;
      bytes_in_flight = bytes_in_flight;
      delivery_rate_bps = rate.rate_sample_bps;
      round_count = rate.round_count;
      is_app_limited = rate.rate_is_app_limited;
      round_start = rate.round_start;
    } in
    let cc = Bbr.on_ack conn.cc_state info in
    record conn {
      delivery_rate = rate;
      cc_state = cc;
      pacer = Pacer.set_rate conn.pacer (Bbr.get_pacing_rate cc);
    }

-- It is `packets_sent` that counts the packets acknowledged.
unfoldable pub on_packet_acked : Conn → SentPkt → ℕ → Conn
on_packet_acked conn pkt bytes_in_flight =
    let counted = record conn {
      stats = record conn.stats { packets_sent = add64 conn.stats.packets_sent 1 };
    } in
    acked_rate (ack_frames counted pkt.frames) pkt bytes_in_flight

-- The calls for the packets acknowledged.
unfoldable pub acked_all : Conn → ℕ → List SentPkt → Conn
acked_all conn bytes [] = conn
acked_all conn bytes (pkt ∷ pkts) =
    let left = landed pkt bytes in acked_all (on_packet_acked conn pkt left) left pkts

unfoldable pub rewind : Conn → StreamFrameRecord → Sched → Conn
rewind conn rec sched = record conn {
  stream_at =
      assign conn.stream_at rec.stream_id
        (Stream.on_loss (conn.stream_at rec.stream_id) rec.offset rec.len rec.fin);
  sched = sched;
}

-- One turn of the loop over the records of a lost packet. `none` is a null pointer followed.
unfoldable pub lose_frame : Conn → StreamFrameRecord → Option Conn
lose_frame conn rec =
    if conn.streams rec.stream_id
    then elim (Scheduler.add conn.sched rec.stream_id) [
      | none ↦ none
      | some sched ↦ some (rewind conn rec sched)
    ]
    else some conn

unfoldable pub lose_frames : Conn → List StreamFrameRecord → Option Conn
lose_frames conn [] = some conn
lose_frames conn (rec ∷ recs) = elim (lose_frame conn rec) [
  | none ↦ none
  | some conn' ↦ lose_frames conn' recs
]

unfoldable pub lost_rate : Conn → SentPkt → ℕ → Conn
lost_rate conn pkt bytes_in_flight = record conn {
  cc_state =
      Bbr.on_loss conn.cc_state
        (record { lost_bytes = pkt.sent_bytes; bytes_in_flight = bytes_in_flight });
}

unfoldable pub on_packet_lost : Conn → SentPkt → ℕ → Option Conn
on_packet_lost conn pkt bytes_in_flight =
    let counted = record conn {
      stats = record conn.stats { packets_lost = add64 conn.stats.packets_lost 1 };
    } in
    elim (lose_frames counted pkt.frames) [
      | none ↦ none
      | some conn' ↦ some (lost_rate conn' pkt bytes_in_flight)
    ]

unfoldable pub lost_all : Conn → ℕ → List SentPkt → Option Conn
lost_all conn bytes [] = some conn
lost_all conn bytes (pkt ∷ pkts) =
    let left = landed pkt bytes in
    elim (on_packet_lost conn pkt left) [ none ↦ none | some conn' ↦ lost_all conn' left pkts ]

unfoldable pub update_stats : Conn → Conn
update_stats conn = record conn {
  stats = record conn.stats {
    rtt_smoothed_us = conn.ack.smoothed_rtt;
    rtt_var_us = conn.ack.rtt_var;
    rtt_min_us = if conn.ack.min_rtt == u64_max then conn.stats.rtt_min_us else conn.ack.min_rtt;
    bytes_in_flight = conn.ack.bytes_in_flight;
  };
}

-- The case of an ACK frame.
unfoldable pub on_ack_frame : Conn → AckFrame → ℕ → Option Conn
on_ack_frame conn frame now_us =
    let outcome = on_ack_recv conn.ack frame now_us in
    let walk = walk_acked frame conn.ack.bytes_in_flight conn.ack.sent in
    let told = record (acked_all conn conn.ack.bytes_in_flight outcome.acked) {
      ack = outcome.ack;
    } in
    elim (lost_all told walk.bytes outcome.lost) [
      | none ↦ none
      | some conn' ↦ some (update_stats conn')
    ]
