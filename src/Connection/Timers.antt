-- ===== src/Connection/Timers.antt =====
-- The timers of a connection: `nxp_conn_timeout` and `nxp_conn_on_timeout` of src/core/connection.c.
use nxp.Prelude.{ℕ, Option, none, some, Bool, true, not, ◌&&◌, ltb, leb, ◌==◌, if◌then◌else◌}
use nxp.Prelude.Word.{add64, u64_max}
use nxp.Ack.Sent.{loss_timeout, on_loss_timeout}
use nxp.Bbr.{max_datagram_size}
use nxp.Pacer
use nxp.Heartbeat
use nxp.Connection.{Conn, set_conn_state}
use nxp.Connection.States.{ConnState, is_state}
use nxp.Connection.Acked.{lost_all}

unfoldable pub earlier : ℕ → ℕ → ℕ
earlier timeout t = if ltb t timeout then t else timeout

-- The four deadlines besides that of the loss detection, each taken if it is earlier.
unfoldable pub idle_first : Conn → ℕ → ℕ
idle_first conn timeout =
    if ltb 0 conn.last_activity_us
    then earlier timeout (add64 conn.last_activity_us conn.idle_timeout_us)
    else timeout

unfoldable pub ack_first : Conn → ℕ → ℕ
ack_first conn timeout =
    if conn.ack.ack_needed then earlier timeout conn.ack.ack_delay_timer else timeout

unfoldable pub pacing_first : Conn → ℕ → ℕ → ℕ
pacing_first conn now_us timeout =
    let delay = Pacer.next_send_time conn.pacer max_datagram_size in
    if conn.pacer.enabled && ltb 0 delay then earlier timeout (add64 now_us delay) else timeout

unfoldable pub conn_timeout : Conn → ℕ → ℕ
conn_timeout conn now_us =
    if is_state conn.state ConnState.closed
    then u64_max
    else let loss = earlier u64_max (loss_timeout conn.ack) in
      let paced = pacing_first conn now_us (ack_first conn (idle_first conn loss)) in
      earlier paced (Heartbeat.next_timeout conn.heartbeat)

unfoldable pub is_idle_over : Conn → ℕ → Bool
is_idle_over conn now_us =
    ltb 0 conn.last_activity_us && leb (add64 conn.last_activity_us conn.idle_timeout_us) now_us

unfoldable pub probe : Conn → Conn
probe conn = if ltb 0 conn.ack.pto_count then record conn { send_ping = true } else conn

-- The loss timer. The calls for the packets lost find the connection as it is, and only the bytes in flight
-- of the tracker already lowered.
unfoldable pub fire_loss : Conn → ℕ → Option Conn
fire_loss conn now_us =
    let (ack, lost) = on_loss_timeout conn.ack now_us in
    elim (lost_all (record conn { ack = ack }) conn.ack.bytes_in_flight lost) [
      | none ↦ none
      | some conn' ↦ some (probe conn')
    ]

unfoldable pub check_loss : Conn → ℕ → Option Conn
check_loss conn now_us =
    let t = loss_timeout conn.ack in
    if not (t == u64_max) && leb t now_us then fire_loss conn now_us else some conn

unfoldable pub check_heartbeat : Conn → ℕ → Conn
check_heartbeat conn now_us =
    let hb = Heartbeat.check conn.heartbeat now_us in
    let checked = record conn { heartbeat = hb } in
    if Heartbeat.is_dead hb then set_conn_state checked ConnState.closed else checked

-- `nxp_conn_on_timeout`; `none` is a null pointer followed.
unfoldable pub on_timeout : Conn → ℕ → Option Conn
on_timeout conn now_us =
    if is_idle_over conn now_us
    then some (set_conn_state conn ConnState.closed)
    else elim (check_loss conn now_us) [
      | none ↦ none
      | some conn' ↦ some (check_heartbeat conn' now_us)
    ]
