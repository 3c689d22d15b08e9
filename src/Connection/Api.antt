-- ===== src/Connection/Api.antt =====
-- What the application asks of a connection: the stream operations, the close, the start of a handshake and
-- the settings, at the end of src/core/connection.c.
use nxp.Prelude.{ℕ, List, Option, none, some, Bool, true, false, not, ◌||◌, ltb, leb, if◌then◌else◌}
use nxp.Prelude.Word.{add64, add32}
use nxp.Frame.Types.{ConnId}
use nxp.Stream
use nxp.Stream.{Stream, StreamType, ReadResult}
use nxp.StreamRate
use nxp.Heartbeat
use nxp.Scheduler.{assign}
use nxp.Connection.{Conn, Handshake, TransportParams, set_conn_state}
use nxp.Connection.States.{ConnState, is_state}
use nxp.Connection.StreamId.{make_stream_id}
use nxp.Connection.Frames.{ConnError, schedule}

unfoldable pub at_limit : Conn → Bool → Bool
at_limit conn unidirectional =
    if unidirectional
    then leb conn.peer_max_streams_uni conn.open_uni_count
    else leb conn.peer_max_streams_bidi conn.open_bidi_count

unfoldable pub next_id : Conn → StreamType → Bool → ℕ
next_id conn type unidirectional =
    make_stream_id (if unidirectional then conn.next_uni_id else conn.next_bidi_id) type
      unidirectional conn.is_server

-- The new stream in the map.
unfoldable pub put_stream : Conn → ℕ → StreamType → Conn
put_stream conn id type = record conn {
  streams = assign conn.streams id true;
  stream_at =
      assign conn.stream_at id
        (Stream.create id type conn.initial_max_stream_data conn.initial_max_stream_data);
  blocked = assign conn.blocked id false;
  on_writable = assign conn.on_writable id false;
  stats = record conn.stats { streams_opened = add64 conn.stats.streams_opened 1 };
}

unfoldable pub count_stream : Conn → Bool → Conn
count_stream conn unidirectional =
    if unidirectional
    then record conn {
      next_uni_id = add64 conn.next_uni_id 1;
      open_uni_count = add32 conn.open_uni_count 1;
    }
    else record conn {
      next_bidi_id = add64 conn.next_bidi_id 1;
      open_bidi_count = add32 conn.open_bidi_count 1;
    }

-- `nxp_conn_open_stream`: the connection, and the id unless a limit is reached.
unfoldable pub open_stream : Conn → StreamType → Bool → Conn × Option ℕ
open_stream conn type unidirectional =
    let id = next_id conn type unidirectional in
    if at_limit conn unidirectional
    then (conn, none)
    else (count_stream (put_stream conn id type) unidirectional, some id)

unfoldable pub with_count : ℕ → Option Conn → Option (Conn × Option ℕ)
with_count n none = none
with_count n (some conn) = some (conn, some n)

-- A write that took something is followed by a place in the scheduler.
unfoldable pub after_write : Conn → ℕ → Option ℕ → Option (Conn × Option ℕ)
after_write conn id none = some (conn, none)
after_write conn id (some n) =
    if ltb 0 n then with_count n (schedule conn id) else some (conn, some n)

unfoldable pub store_written : Conn → ℕ → Option (Stream × Option ℕ) → Option (Conn × Option ℕ)
store_written conn id none = none
store_written conn id (some (s, written)) =
    after_write (record conn { stream_at = assign conn.stream_at id s }) id written

-- `nxp_conn_stream_send`: the outer `none` is a fault, the inner one is -1.
unfoldable pub stream_send : Conn → ℕ → List ℕ → Bool → Option (Conn × Option ℕ)
stream_send conn id bytes fin =
    if not (is_state conn.state ConnState.established) || not (conn.streams id)
    then some (conn, none)
    else store_written conn id (Stream.write (conn.stream_at id) bytes fin)

unfoldable pub store_read : Conn → ℕ → Option ReadResult → Option (Conn × Option ReadResult)
store_read conn id none = none
store_read conn id (some r) =
    some (record conn { stream_at = assign conn.stream_at id r.stream }, some r)

-- `nxp_conn_stream_recv`: the outer `none` is a fault, the inner one the absence of the stream.
unfoldable pub stream_recv : Conn → ℕ → ℕ → Option (Conn × Option ReadResult)
stream_recv conn id buf_len =
    if conn.streams id
    then store_read conn id (Stream.read (conn.stream_at id) buf_len)
    else some (conn, none)

-- `nxp_conn_initiate_close`
unfoldable pub initiate_close : Conn → ℕ → Conn × Option ConnError
initiate_close conn error_code =
    if is_state conn.state ConnState.closed || is_state conn.state ConnState.draining
    then (conn, some ConnError.connection_closed)
    else (record conn { send_conn_close = true; close_error_code = error_code }, none)

-- The local parameters that a handshake starts with.
unfoldable pub local_params : Conn → TransportParams
local_params conn = record {
  initial_max_data = conn.conn_flow.local_max_data;
  initial_max_stream_data = conn.initial_max_stream_data;
  max_streams_bidi = conn.local_max_streams_bidi;
  max_streams_uni = conn.local_max_streams_uni;
  idle_timeout_us = conn.idle_timeout_us;
  max_early_data = 0;
  active_cid_limit = 0;
}

-- `nxp_conn_start_handshake`. `start` is what `nxp_handshake_create`, `nxp_handshake_set_local_params` and
-- `nxp_handshake_start_client` or `nxp_handshake_start_server` give for a role, parameters and a connection
-- id: no memory, the error of the start, or the handshake.
pub data Started : Type 0 where
  no_handshake : Started
  refused : ConnError → Started
  started : Handshake → Started

unfoldable pub enter_handshake : Conn → ConnId → Conn
enter_handshake conn peer_cid =
    set_conn_state (if conn.is_server then conn else record conn { dcid = peer_cid })
      ConnState.handshake_initial

unfoldable pub after_start : Conn → ConnId → Started → Conn × Option ConnError
after_start conn peer_cid Started.no_handshake = (conn, some ConnError.out_of_memory)
after_start conn peer_cid (Started.refused error) =
    (set_conn_state (enter_handshake conn peer_cid) ConnState.idle, some error)
after_start conn peer_cid (Started.started hs) =
    (record (enter_handshake conn peer_cid) { handshake = some hs }, none)

unfoldable pub start_handshake :
    (Bool → TransportParams → ConnId → Started) → Conn → ConnId → Conn × Option ConnError
start_handshake start conn peer_cid =
    if not (is_state conn.state ConnState.idle)
    then (conn, some ConnError.invalid_argument)
    else after_start conn peer_cid (start conn.is_server (local_params conn) peer_cid)

-- `nxp_conn_set_heartbeat` and `nxp_conn_set_auto_reconnect`
unfoldable pub set_heartbeat : Conn → ℕ → Conn
set_heartbeat conn interval_us = record conn { heartbeat = Heartbeat.init interval_us }

unfoldable pub set_auto_reconnect : Conn → Bool → ℕ → Conn
set_auto_reconnect conn enable max_attempts = record conn {
  auto_reconnect = enable;
  max_reconnect_attempts = max_attempts;
}

-- `nxp_conn_set_stream_rate` and `nxp_conn_set_on_writable`; false is the absence of the stream.
unfoldable pub set_stream_rate : Conn → ℕ → ℕ → Conn × Bool
set_stream_rate conn id rate_bps =
    let s = conn.stream_at id in
    if conn.streams id
    then (
      record conn {
        stream_at =
            assign conn.stream_at id
              (record s { rate_limit = StreamRate.set s.rate_limit rate_bps });
      },
      true,
    )
    else (conn, false)

unfoldable pub set_on_writable : Conn → ℕ → Bool → Conn × Bool
set_on_writable conn id callback =
    if conn.streams id
    then (record conn { on_writable = assign conn.on_writable id callback }, true)
    else (conn, false)
