-- ===== src/Connection/Send.antt =====
-- A packet that is sent: `nxp_conn_send` of src/core/connection.c, for a connection that has no handshake
-- data to send. A frame that does not fit is left out; `Packing` is what the function collects.
pub mod Streams
use nxp.Prelude.{
  ℕ, zero, suc, ◌+◌, ◌-◌, ◌%◌, ◌++◌, ◌&&◌, ◌||◌, List, [], ◌∷◌, Option, none, some, Bool, true,
  false, not, ltb, leb, ◌==◌, if◌then◌else◌, length, replicate, min,
}
use nxp.Prelude.Word.{add64, u32_mod}
use nxp.Codec.{Writer}
use nxp.Codec
use nxp.Frame.Types.{ConnectionCloseFrame, NewConnectionIdFrame}
use nxp.Frame.Encode.{
  write_ack, write_ping, write_max_data, write_connection_close, write_path_response,
  write_path_challenge, write_new_connection_id, write_retire_connection_id, write_heartbeat,
}
use nxp.Ack.Types.{StreamFrameRecord}
use nxp.Ack.Build.{build_frame}
use nxp.Flow
use nxp.Migration.{CidEntry}
use nxp.Connection.{Conn, set_conn_state}
use nxp.Connection.States.{ConnState}

-- The bytes of `frame_buf` in use, its size, and the records of the packet.
pub record Packing : Type 0 where
  pub conn : Conn
  pub bytes : List ℕ
  pub space : ℕ
  pub has_ack_eliciting : Bool
  pub frames : List StreamFrameRecord

-- An encoder called with the rest of the buffer.
unfoldable pub encoded : Packing → Writer → Option (List ℕ)
encoded p w = Codec.run w (replicate (p.space - length p.bytes) 0)

-- What was encoded goes behind the rest.
unfoldable pub append_frame : Packing → (Conn → Conn) → Option (List ℕ) → Packing
append_frame p sent none = p
append_frame p sent (some out) = record p {
  conn = sent p.conn;
  bytes = p.bytes ++ out;
  has_ack_eliciting = true;
}

-- A frame that is due, and what is reset once it is in the packet.
unfoldable pub add_frame : Packing → Bool → Writer → (Conn → Conn) → Packing
add_frame p due w sent = if due then append_frame p sent (encoded p w) else p

unfoldable pub append_ack : Packing → Option (List ℕ) → Packing
append_ack p none = p
append_ack p (some out) = record p {
  conn = record p.conn { ack = record p.conn.ack { ack_needed = false } };
  bytes = p.bytes ++ out;
}

unfoldable pub encoded_ack : Packing → ℕ → Option (List ℕ)
encoded_ack p now_us = elim (build_frame p.conn.ack now_us) [
  | none ↦ none
  | some frame ↦ encoded p (write_ack frame)
]

unfoldable pub add_ack : Packing → ℕ → Packing
add_ack p now_us = if p.conn.ack.ack_needed then append_ack p (encoded_ack p now_us) else p

unfoldable pub close_frame : Conn → ConnectionCloseFrame
close_frame conn = record {
  error_code = conn.close_error_code;
  frame_type = 0;
  reason_len = 0;
  reason = none;
  is_app = true;
}

unfoldable pub closing_sent : Conn → Conn
closing_sent conn = set_conn_state (record conn { send_conn_close = false }) ConnState.closing

unfoldable pub add_close : Packing → Packing
add_close p =
    add_frame p p.conn.send_conn_close (write_connection_close (close_frame p.conn)) closing_sent

unfoldable pub add_ping : Packing → Packing
add_ping p = add_frame p p.conn.send_ping write_ping (λ conn. record conn { send_ping = false })

-- The update is taken whether or not its frame fits.
unfoldable pub add_max_data : Packing → Packing
add_max_data p =
    let (flow, new_max) = Flow.get_update p.conn.conn_flow in
    if Flow.should_update p.conn.conn_flow
    then add_frame (record p { conn = record p.conn { conn_flow = flow } }) true
        (write_max_data new_max) (λ conn. conn)
    else p

unfoldable pub add_path_response : Packing → Packing
add_path_response p =
    add_frame p p.conn.migration.send_path_response
      (write_path_response p.conn.migration.pending_response_data)
      (λ conn. record conn { migration = record conn.migration { send_path_response = false } })

unfoldable pub add_path_challenge : Packing → Packing
add_path_challenge p =
    add_frame p p.conn.migration.send_path_challenge
      (write_path_challenge p.conn.migration.new_path.challenge_data)
      (λ conn. record conn { migration = record conn.migration { send_path_challenge = false } })

unfoldable pub cid_frame : CidEntry → NewConnectionIdFrame
cid_frame e = record {
  seq_num = e.seq_num;
  retire_prior_to = 0;
  cid = e.cid;
  stateless_reset_token = e.stateless_reset_token;
}

-- The entry at the end of a list, and the list without it.
unfoldable pub pop_last : List CidEntry → Option (List CidEntry × CidEntry)
pop_last [] = none
pop_last (e ∷ es) = elim (pop_last es) [ none ↦ some ([], e) | some (rest, l) ↦ some (e ∷ rest, l) ]

unfoldable pub offered : Packing → List CidEntry → Option (List ℕ) → Option Packing
offered p rest none = none
offered p rest (some out) = some (record p {
  conn = record p.conn { migration = record p.conn.migration { pending_new_cids = rest } };
  bytes = p.bytes ++ out;
  has_ack_eliciting = true;
})

-- One connection id is offered; `none` ends the loop.
unfoldable pub offer_cid : Packing → Option (List CidEntry × CidEntry) → Option Packing
offer_cid p none = none
offer_cid p (some (rest, e)) = offered p rest (encoded p (write_new_connection_id (cid_frame e)))

-- The loop over the connection ids to offer, for as many turns as there are entries.
unfoldable pub add_new_cids : ℕ → Packing → Packing
add_new_cids zero p = p
add_new_cids (suc n) p = elim (offer_cid p (pop_last p.conn.migration.pending_new_cids)) [
  | none ↦ p
  | some p' ↦ add_new_cids n p'
]

unfoldable pub add_retire_cid : Packing → Packing
add_retire_cid p =
    add_frame p p.conn.migration.send_retire_cid
      (write_retire_connection_id p.conn.migration.retire_seq)
      (λ conn. record conn { migration = record conn.migration { send_retire_cid = false } })

unfoldable pub add_echo : Packing → Packing
add_echo p =
    add_frame p p.conn.heartbeat.send_echo (write_heartbeat p.conn.heartbeat.echo_timestamp)
      (λ conn. record conn { heartbeat = record conn.heartbeat { send_echo = false } })

unfoldable pub add_heartbeat : Packing → Packing
add_heartbeat p =
    add_frame p p.conn.heartbeat.send_heartbeat (write_heartbeat p.conn.heartbeat.pending_timestamp)
      (λ conn. record conn { heartbeat = record conn.heartbeat { send_heartbeat = false } })

unfoldable pub add_migration : Packing → Packing
add_migration p =
    let answered = add_path_challenge (add_path_response p) in
    add_retire_cid (add_new_cids (length answered.conn.migration.pending_new_cids) answered)

-- The frames in front of the data of the streams.
unfoldable pub add_control : Packing → ℕ → Packing
add_control p now_us =
    add_heartbeat
      (add_echo (add_migration (add_max_data (add_ping (add_close (add_ack p now_us))))))
