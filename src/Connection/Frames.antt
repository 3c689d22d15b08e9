-- ===== src/Connection/Frames.antt =====
-- The frames of a packet: `process_frames` of src/core/connection.c, one function for each case of its
-- switch, and `nxp_handshake_on_handshake_done` of src/core/handshake.c.
use nxp.Prelude.{
  ℕ, zero, suc, ◌%◌, ◌++◌, List, [], ◌∷◌, Option, none, some, true, false, not, ltb, leb,
  if◌then◌else◌, take,
}
use nxp.Prelude.Word.{add64, u32_mod}
use nxp.Frame.Types.{
  Frame, StreamFrame, MaxStreamDataFrame, MaxStreamsFrame, NewTokenFrame, NewConnectionIdFrame,
  Bytes?,
}
use nxp.Frame.Decode
use nxp.Stream
use nxp.Stream.{Stream, StreamType, StreamError, unsent}
use nxp.Flow
use nxp.Heartbeat
use nxp.Migration
use nxp.Migration.{CidEntry}
use nxp.Scheduler
use nxp.Scheduler.{assign}
use nxp.Connection.{Conn, Handshake, HsState, TransportParams, set_conn_state}
use nxp.Connection.States.{ConnState}
use nxp.Connection.StreamId.{stream_id_is_local}
use nxp.Connection.Acked.{on_ack_frame}

pub data ConnError : Type 0 where
  invalid_argument invalid_frame connection_closed stream_limit internal out_of_memory : ConnError
  invalid_packet crypto_fail : ConnError
  on_stream : StreamError → ConnError

-- What handling leaves: the connection and an error or success; `fault` is a null pointer followed or a
-- write past the end of a buffer.
pub data Handled : Type 0 where
  returned : Conn → Option ConnError → Handled
  fault : Handled
  out_of_fuel : Handled

unfoldable pub or_fault : Option Conn → Handled
or_fault none = Handled.fault
or_fault (some conn) = Handled.returned conn none

-- The stream that a peer opens with its first frame.
unfoldable pub create_remote : Conn → ℕ → Conn
create_remote conn id = record conn {
  streams = assign conn.streams id true;
  stream_at = assign conn.stream_at id (
      Stream.create id StreamType.reliable conn.initial_max_stream_data
        conn.initial_max_stream_data);
  blocked = assign conn.blocked id false;
  on_writable = assign conn.on_writable id false;
  stats = record conn.stats { streams_opened = add64 conn.stats.streams_opened 1 };
  new_stream_calls = conn.new_stream_calls ++ (id ∷ []);
}

unfoldable pub stream_error : Option StreamError → Option ConnError
stream_error none = none
stream_error (some e) = some (ConnError.on_stream e)

-- What `nxp_stream_on_recv` leaves of the stream is stored.
unfoldable pub store_stream : Conn → ℕ → Option (Stream × Option StreamError) → Handled
store_stream conn id none = Handled.fault
store_stream conn id (some (s, error)) =
    Handled.returned (record conn { stream_at = assign conn.stream_at id s }) (stream_error error)

unfoldable pub recv_on : Conn → StreamFrame → Handled
recv_on conn f = store_stream conn f.stream_id (Stream.on_recv (conn.stream_at f.stream_id) f)

unfoldable pub on_stream_frame : Conn → StreamFrame → Handled
on_stream_frame conn f =
    if conn.streams f.stream_id
    then recv_on conn f
    else if stream_id_is_local f.stream_id conn.is_server
    then Handled.returned conn (some ConnError.invalid_frame)
    else recv_on (create_remote conn f.stream_id) f

unfoldable pub raise_stream : Conn → MaxStreamDataFrame → Conn
raise_stream conn f = record conn {
  stream_at = assign conn.stream_at f.stream_id (record (conn.stream_at f.stream_id) {
    flow = Flow.set_peer_max (conn.stream_at f.stream_id).flow f.max_stream_data;
  });
}

unfoldable pub schedule : Conn → ℕ → Option Conn
schedule conn id = elim (Scheduler.add conn.sched id) [
  | none ↦ none
  | some sched ↦ some (record conn { sched = sched })
]

unfoldable pub on_max_stream_data : Conn → MaxStreamDataFrame → Option Conn
on_max_stream_data conn f =
    if not (conn.streams f.stream_id)
    then some conn
    else if ltb 0 (unsent (conn.stream_at f.stream_id))
    then schedule (raise_stream conn f) f.stream_id
    else some (raise_stream conn f)

unfoldable pub on_max_streams : Conn → MaxStreamsFrame → Conn
on_max_streams conn f =
    if f.is_bidi
    then record conn { peer_max_streams_bidi = f.max_streams % u32_mod }
    else record conn { peer_max_streams_uni = f.max_streams % u32_mod }

-- `nxp_handshake_on_handshake_done`, `none` for its error.
unfoldable pub on_handshake_done : Handshake → Option Handshake
on_handshake_done hs = elim hs.state [
  | HsState.wait_handshake_done ↦ some (record hs { state = HsState.complete })
  | _ ↦ none
]

unfoldable pub apply_peer_params : Conn → TransportParams → Conn
apply_peer_params conn tp = record conn {
  conn_flow =
      if ltb 0 tp.initial_max_data
      then Flow.set_peer_max conn.conn_flow tp.initial_max_data
      else conn.conn_flow;
  peer_max_streams_bidi =
      if ltb 0 tp.max_streams_bidi then tp.max_streams_bidi else conn.peer_max_streams_bidi;
  peer_max_streams_uni =
      if ltb 0 tp.max_streams_uni then tp.max_streams_uni else conn.peer_max_streams_uni;
}

unfoldable pub complete_handshake : Conn → Handshake → Conn
complete_handshake conn hs =
    let up = set_conn_state (record conn { handshake = some hs }) ConnState.established in
    if hs.has_peer_params then apply_peer_params up hs.peer_params else up

unfoldable pub on_handshake_done_frame : Conn → Conn
on_handshake_done_frame conn = elim conn.handshake [
  | none ↦ conn
  | some hs ↦ elim (on_handshake_done hs) [ none ↦ conn | some hs' ↦ complete_handshake conn hs' ]
]

unfoldable pub rotate_dcid : Conn → Option CidEntry → Conn
rotate_dcid conn none = conn
rotate_dcid conn (some e) = record conn {
  dcid = e.cid;
  migration = Migration.use_cid conn.migration e.seq_num;
}

unfoldable pub on_path_response : Conn → List ℕ → Conn
on_path_response conn bytes =
    let (migration, validated) = Migration.on_path_response conn.migration bytes in
    let moved = record conn { migration = migration; peer_addr = migration.current_path.addr } in
    if validated
    then rotate_dcid moved (Migration.get_unused_cid migration)
    else record conn { migration = migration }

unfoldable pub ticket_bytes : Bytes? → List ℕ
ticket_bytes none = []
ticket_bytes (some bytes) = bytes

unfoldable pub save_ticket : Handshake → NewTokenFrame → Handshake
save_ticket hs f =
    if leb f.token_len 256
    then record hs {
      session_ticket = take f.token_len (ticket_bytes f.token);
      has_session_ticket = true;
    }
    else hs

unfoldable pub on_new_token : Conn → NewTokenFrame → Conn
on_new_token conn f = if conn.is_server then conn else elim conn.handshake [
  | none ↦ conn
  | some hs ↦ record conn { handshake = some (save_ticket hs f) }
]

unfoldable pub on_new_connection_id : Conn → NewConnectionIdFrame → Conn
on_new_connection_id conn f = record conn {
  migration =
      Migration.on_new_connection_id conn.migration f.cid f.seq_num f.retire_prior_to
        f.stateless_reset_token;
}

unfoldable pub done : Conn → Handled
done conn = Handled.returned conn none

-- The switch. A type without a case is skipped.
unfoldable pub process_frame : Conn → Frame → ℕ → Handled
process_frame conn (Frame.padding n) now_us = done conn
process_frame conn Frame.ping now_us = done conn
process_frame conn (Frame.ack f) now_us = or_fault (on_ack_frame conn f now_us)
process_frame conn (Frame.stream f) now_us = on_stream_frame conn f
process_frame conn (Frame.max_data n) now_us =
    done (record conn { conn_flow = Flow.set_peer_max conn.conn_flow n })
process_frame conn (Frame.max_stream_data f) now_us = or_fault (on_max_stream_data conn f)
process_frame conn (Frame.max_streams f) now_us = done (on_max_streams conn f)
process_frame conn (Frame.connection_close f) now_us = done (set_conn_state conn ConnState.draining)
process_frame conn Frame.handshake_done now_us = done (on_handshake_done_frame conn)
process_frame conn (Frame.path_challenge bytes) now_us =
    done (record conn { migration = Migration.on_path_challenge conn.migration bytes })
process_frame conn (Frame.path_response bytes) now_us = done (on_path_response conn bytes)
process_frame conn (Frame.new_connection_id f) now_us = done (on_new_connection_id conn f)
process_frame conn (Frame.retire_connection_id seq_num) now_us =
    done (record conn { migration = Migration.on_retire_connection_id conn.migration seq_num })
process_frame conn (Frame.new_token f) now_us = done (on_new_token conn f)
process_frame conn (Frame.heartbeat timestamp) now_us =
    done (record conn { heartbeat = Heartbeat.on_recv conn.heartbeat timestamp now_us })
process_frame conn (Frame.reset_stream f) now_us = done conn
process_frame conn (Frame.stop_sending f) now_us = done conn
process_frame conn (Frame.crypto f) now_us = done conn
process_frame conn (Frame.data_blocked n) now_us = done conn
process_frame conn (Frame.stream_data_blocked f) now_us = done conn
process_frame conn (Frame.streams_blocked f) now_us = done conn
process_frame conn (Frame.stream_priority f) now_us = done conn
process_frame conn (Frame.datagram f) now_us = done conn

-- The loop; each turn takes at least a byte of the payload.
unfoldable pub process_frames : ℕ → Conn → List ℕ → ℕ → Handled
process_frames fuel conn [] now_us = done conn
process_frames zero conn (b ∷ bytes) now_us = Handled.out_of_fuel
process_frames (suc fuel) conn (b ∷ bytes) now_us = elim (Decode.decode (b ∷ bytes)) [
  | none ↦ Handled.returned conn (some ConnError.invalid_frame)
  | some (frame, rest) ↦ elim (process_frame conn frame now_us) [
    | Handled.returned conn' none ↦ process_frames fuel conn' rest now_us
    | Handled.returned conn' (some error) ↦ Handled.returned conn' (some error)
    | Handled.fault ↦ Handled.fault
    | Handled.out_of_fuel ↦ Handled.out_of_fuel
  ]
]
