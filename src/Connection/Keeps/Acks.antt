-- ===== src/Connection/Keeps/Acks.antt =====
-- Acknowledgements, losses and timers keep the connection in order, and follow no null pointer.
use nxp.Prelude.{
  ℕ, ◌≡◌, inl, inr, refl, ◌∙◌, arith, List, [], ◌∷◌, some, not, ◌&&◌, leb, ◌==◌, if◌then◌else◌,
  if-elim, Bool-cases,
}
use nxp.Prelude.Word.{add64, u64_max}
use nxp.Frame.Types.{AckFrame}
use nxp.Ack.Types.{SentPkt, StreamFrameRecord}
use nxp.Ack.Sent.{landed, walk_acked, on_ack_recv, on_loss_timeout, loss_timeout}
use nxp.Heartbeat
use nxp.Scheduler.Queue.{add-enqueue, enqueue}
use nxp.Connection.{Conn, set_conn_state}
use nxp.Connection.States.{ConnState}
use nxp.Connection.Acked.{
  notify_writable, ack_frame, ack_frames, acked_rate, on_packet_acked, acked_all, rewind,
  lose_frame, lose_frames, lost_rate, on_packet_lost, lost_all, update_stats, on_ack_frame,
}
use nxp.Connection.Timers.{probe, fire_loss, check_loss, check_heartbeat, is_idle_over, on_timeout}
use nxp.Connection.Keeps.{
  Keeps, Keeps-same, Keeps-self, Keeps-trans, set_conn_state-Keeps, set_conn_state-sched, HasQueue,
  Follows, IsSafe,
}

-- What acknowledgements leave alone.
abbrev IsUntouched : Conn → Conn → Type 0
IsUntouched a b =
    (b.state ≡ a.state)
    × (b.conn_flow ≡ a.conn_flow)
    × (b.is_server ≡ a.is_server)
    × (b.streams ≡ a.streams)
    × (b.next_bidi_id ≡ a.next_bidi_id)
    × (b.next_uni_id ≡ a.next_uni_id)
    × (b.sched ≡ a.sched)

IsUntouched-trans : (a b c : Conn) → IsUntouched a b → IsUntouched b c → IsUntouched a c
IsUntouched-trans a b c h k =
    (k.0 ∙ h.0, k.1 ∙ h.1, k.2 ∙ h.2, k.3 ∙ h.3, k.4 ∙ h.4, k.5 ∙ h.5, k.6 ∙ h.6)

IsUntouched-Follows : (a b : Conn) → IsUntouched a b → HasQueue a → Follows a b
IsUntouched-Follows a b h q = (Keeps-same a b h.0 h.1 h.2 h.3 h.4 h.5, (q.0, rw h.6 q.1))

IsUntouched-frame : (conn : Conn) (rec : StreamFrameRecord) → IsUntouched conn (ack_frame conn rec)
unfolding ack_frame notify_writable
IsUntouched-frame conn rec = ground arith

IsUntouched-frames :
    (conn : Conn) (recs : List StreamFrameRecord) → IsUntouched conn (ack_frames conn recs)
unfolding ack_frames
IsUntouched-frames conn [] = (refl, refl, refl, refl, refl, refl, refl)
IsUntouched-frames conn (rec ∷ recs) =
    IsUntouched-trans conn (ack_frame conn rec) (ack_frames (ack_frame conn rec) recs)
      (IsUntouched-frame conn rec) (IsUntouched-frames (ack_frame conn rec) recs)

IsUntouched-packet :
    (conn : Conn) (pkt : SentPkt) (bytes : ℕ) → IsUntouched conn (on_packet_acked conn pkt bytes)
unfolding on_packet_acked acked_rate
IsUntouched-packet conn pkt bytes = IsUntouched-frames _ pkt.frames

IsUntouched-all :
    (conn : Conn) (bytes : ℕ) (pkts : List SentPkt) → IsUntouched conn (acked_all conn bytes pkts)
unfolding acked_all
IsUntouched-all conn bytes [] = (refl, refl, refl, refl, refl, refl, refl)
IsUntouched-all conn bytes (pkt ∷ pkts) =
    IsUntouched-trans conn (on_packet_acked conn pkt (landed pkt bytes))
      (acked_all (on_packet_acked conn pkt (landed pkt bytes)) (landed pkt bytes) pkts)
      (IsUntouched-packet conn pkt (landed pkt bytes))
      (IsUntouched-all (on_packet_acked conn pkt (landed pkt bytes)) (landed pkt bytes) pkts)

lose_frame-IsSafe :
    (conn : Conn) (rec : StreamFrameRecord) → HasQueue conn → IsSafe conn (lose_frame conn rec)
unfolding lose_frame rewind
lose_frame-IsSafe conn rec q =
    let (sched, e, q') = add-enqueue conn.sched rec.stream_id q.0 q.1 in
    elim (Bool-cases (conn.streams rec.stream_id)) [
      | inl there ↦ (
        rewind conn rec sched,
        simp (lose_frame, there, e, if◌then◌else◌),
        (Keeps-same conn _ refl refl refl refl refl refl, (enqueue rec.stream_id q.0, q')),
      )
      | inr missing ↦ (conn, simp (lose_frame, missing, if◌then◌else◌), (Keeps-self conn, q))
    ]

lose_frames-IsSafe :
    (conn : Conn) (recs : List StreamFrameRecord)
    → HasQueue conn
    → IsSafe conn (lose_frames conn recs)
unfolding lose_frames
lose_frames-IsSafe conn [] q = (conn, refl, (Keeps-self conn, q))
lose_frames-IsSafe conn (rec ∷ recs) q =
    let (mid, e, step) = lose_frame-IsSafe conn rec q in
    let (end, e', rest) = lose_frames-IsSafe mid recs step.1 in
    (end, simp (lose_frames, e, e'), (Keeps-trans step.0 rest.0, rest.1))

on_packet_lost-IsSafe :
    (conn : Conn) (pkt : SentPkt) (bytes : ℕ)
    → HasQueue conn
    → IsSafe conn (on_packet_lost conn pkt bytes)
unfolding on_packet_lost lost_rate
on_packet_lost-IsSafe conn pkt bytes q =
    let counted = record conn {
      stats = record conn.stats { packets_lost = add64 conn.stats.packets_lost 1 };
    } in
    let (mid, e, step) = lose_frames-IsSafe counted pkt.frames q in
    (
      lost_rate mid pkt bytes,
      simp (on_packet_lost, e),
      (
        Keeps-trans (Keeps-trans (Keeps-same conn _ refl refl refl refl refl refl) step.0)
            (Keeps-same mid _ refl refl refl refl refl refl),
        step.1,
      ),
    )

pub lost_all-IsSafe :
    (conn : Conn) (bytes : ℕ) (pkts : List SentPkt)
    → HasQueue conn
    → IsSafe conn (lost_all conn bytes pkts)
unfolding lost_all
lost_all-IsSafe conn bytes [] q = (conn, refl, (Keeps-self conn, q))
lost_all-IsSafe conn bytes (pkt ∷ pkts) q =
    let (mid, e, step) = on_packet_lost-IsSafe conn pkt (landed pkt bytes) q in
    let (end, e', rest) = lost_all-IsSafe mid (landed pkt bytes) pkts step.1 in
    (end, simp (lost_all, e, e'), (Keeps-trans step.0 rest.0, rest.1))

-- An ACK frame follows no null pointer.
pub on_ack_frame-IsSafe :
    (conn : Conn) (frame : AckFrame) (now_us : ℕ)
    → HasQueue conn
    → IsSafe conn (on_ack_frame conn frame now_us)
unfolding on_ack_frame update_stats
on_ack_frame-IsSafe conn frame now_us q =
    let outcome = on_ack_recv conn.ack frame now_us in
    let walk = walk_acked frame conn.ack.bytes_in_flight conn.ack.sent in
    let told = acked_all conn conn.ack.bytes_in_flight outcome.acked in
    let first =
      IsUntouched-Follows conn told (IsUntouched-all conn conn.ack.bytes_in_flight outcome.acked)
        q in
    let renewed = record told { ack = outcome.ack } in
    let (mid, e, step) = lost_all-IsSafe renewed walk.bytes outcome.lost first.1 in
    (
      update_stats mid,
      simp (on_ack_frame, e),
      (
        Keeps-trans
            (Keeps-trans first.0
              (Keeps-trans (Keeps-same told renewed refl refl refl refl refl refl) step.0))
            (Keeps-same mid _ refl refl refl refl refl refl),
        step.1,
      ),
    )

IsUntouched-probe : (conn : Conn) → IsUntouched conn (probe conn)
unfolding probe
IsUntouched-probe conn = ground arith

-- The loss timer follows no null pointer.
fire_loss-IsSafe : (conn : Conn) (now_us : ℕ) → HasQueue conn → IsSafe conn (fire_loss conn now_us)
unfolding fire_loss
fire_loss-IsSafe conn now_us q =
    let (mid, e, step) =
      lost_all-IsSafe (record conn { ack = (on_loss_timeout conn.ack now_us).0 })
        conn.ack.bytes_in_flight (on_loss_timeout conn.ack now_us).1 q in
    let last = IsUntouched-Follows mid (probe mid) (IsUntouched-probe mid) step.1 in
    (
      probe mid,
      simp (fire_loss, e),
      (
        Keeps-trans (Keeps-same conn _ refl refl refl refl refl refl) (Keeps-trans step.0 last.0),
        last.1,
      ),
    )

check_loss-IsSafe :
    (conn : Conn) (now_us : ℕ) → HasQueue conn → IsSafe conn (check_loss conn now_us)
unfolding check_loss
check_loss-IsSafe conn now_us q =
    if-elim (λ r. IsSafe conn r)
      (not (loss_timeout conn.ack == u64_max) && leb (loss_timeout conn.ack) now_us)
      (fire_loss conn now_us) (some conn) (λ due. fire_loss-IsSafe conn now_us q)
      (λ early. (conn, refl, (Keeps-self conn, q)))

check_heartbeat-Follows :
    (conn : Conn) (now_us : ℕ) → HasQueue conn → Follows conn (check_heartbeat conn now_us)
unfolding check_heartbeat
check_heartbeat-Follows conn now_us q =
    let hb = Heartbeat.check conn.heartbeat now_us in
    let checked = record conn { heartbeat = hb } in
    let same : Keeps conn checked = Keeps-same conn checked refl refl refl refl refl refl in
    if-elim (λ c. Follows conn c) (Heartbeat.is_dead hb) (set_conn_state checked ConnState.closed)
      checked
      (λ dead. (
        Keeps-trans same (set_conn_state-Keeps checked ConnState.closed),
        (q.0, rw (set_conn_state-sched checked ConnState.closed) q.1),
      ))
      (λ alive. (same, q))

pub on_timeout-IsSafe :
    (conn : Conn) (now_us : ℕ) → HasQueue conn → IsSafe conn (on_timeout conn now_us)
unfolding on_timeout
on_timeout-IsSafe conn now_us q =
    let (mid, e, step) = check_loss-IsSafe conn now_us q in
    let last = check_heartbeat-Follows mid now_us step.1 in
    if-elim (λ r. IsSafe conn r) (is_idle_over conn now_us) _ _
      (λ over. (
        set_conn_state conn ConnState.closed,
        refl,
        (
          set_conn_state-Keeps conn ConnState.closed,
          (q.0, rw (set_conn_state-sched conn ConnState.closed) q.1),
        ),
      ))
      (λ busy. (check_heartbeat mid now_us, simp e, (Keeps-trans step.0 last.0, last.1)))
