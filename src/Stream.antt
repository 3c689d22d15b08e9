-- ===== src/Stream.antt =====
-- Streams: src/core/stream.c, and `nxp_stream_s` of src/core/connection_internal.h. A stream that exists
-- has both buffers, of `NXP_STREAM_BUF_SIZE` bytes for good, so the fields `cap` are this constant. The
-- scheduler's links, the callback of the application and the flight recorder are left out.
pub mod Content
pub mod Send
pub mod Receive
pub mod Run
mod Tests
use nxp.Prelude.{
  ℕ, ◌+◌, ◌-◌, ◌%◌, List, [], Option, none, some, Bool, true, false, not, ◌&&◌, ◌||◌, ltb, leb,
  ◌==◌, if◌then◌else◌, length, take, drop,
}
use nxp.Prelude.Word.{add64, sub64, u64_mod}
use nxp.Circular.{Array, copy_in, copy_out, load}
use nxp.Flow
use nxp.Flow.{FlowCtrl}
use nxp.StreamRate
use nxp.StreamRate.{StreamRate}
use nxp.Frame.Types.{StreamFrame, Bytes?}

abbrev pub stream_buf_size : ℕ
stream_buf_size = 65536

pub data StreamState : Type 0 where
  idle opened half_closed_local half_closed_remote closed reset : StreamState

abbrev pub is_state : StreamState → StreamState → Bool
is_state idle idle = true
is_state opened opened = true
is_state half_closed_local half_closed_local = true
is_state half_closed_remote half_closed_remote = true
is_state closed closed = true
is_state reset reset = true
is_state _ _ = false

pub data StreamType : Type 0 where
  reliable fast media file : StreamType

pub record SendBuf : Type 0 where
  pub bytes : Array
  pub write_offset : ℕ
  pub sent_offset : ℕ
  pub acked_offset : ℕ
  pub fin : Bool
  pub fin_sent : Bool
  pub fin_acked : Bool

pub record RecvBuf : Type 0 where
  pub bytes : Array
  pub read_offset : ℕ
  pub recv_offset : ℕ
  pub fin_received : Bool
  pub fin_offset : ℕ

pub record Stream : Type 0 where
  pub id : ℕ
  pub type : StreamType
  pub state : StreamState
  pub priority : ℕ
  pub send : SendBuf
  pub recv : RecvBuf
  pub flow : FlowCtrl
  pub rate_limit : StreamRate

-- The switch on the present state.
unfoldable pub follows : StreamState → StreamState → Bool
follows idle to = is_state to opened
follows opened to = is_state to half_closed_local || is_state to half_closed_remote
follows half_closed_local to = is_state to closed
follows half_closed_remote to = is_state to closed
follows closed to = false
follows reset to = false

unfoldable pub is_valid_stream_state_transition : StreamState → StreamState → Bool
is_valid_stream_state_transition from to =
    if is_state to reset || is_state to closed then true else follows from to

unfoldable pub set_stream_state : Stream → StreamState → Stream
set_stream_state s new_state =
    if is_valid_stream_state_transition s.state new_state then record s { state = new_state } else s

abbrev cleared : Array
cleared i = 0

-- `nxp_stream_create`; the allocations succeed. The rate limiter is all zero, as `calloc` leaves it.
unfoldable pub create : ℕ → StreamType → ℕ → ℕ → Stream
create id type initial_max_send initial_max_recv = record {
  id = id;
  type = type;
  state = opened;
  priority = 128;
  send = record {
    bytes = cleared;
    write_offset = 0;
    sent_offset = 0;
    acked_offset = 0;
    fin = false;
    fin_sent = false;
    fin_acked = false;
  };
  recv = record {
    bytes = cleared;
    read_offset = 0;
    recv_offset = 0;
    fin_received = false;
    fin_offset = 0;
  };
  flow = Flow.init initial_max_recv initial_max_send;
  rate_limit = StreamRate.init;
}

-- What the application may still write: room in the buffer, and credit of the peer.
unfoldable pub write_room : Stream → ℕ
write_room s =
    let buffered = sub64 s.send.write_offset s.send.acked_offset in
    let avail = if ltb buffered stream_buf_size then stream_buf_size - buffered else 0 in
    let fc_avail =
      if ltb s.send.write_offset s.flow.peer_max_data
      then s.flow.peer_max_data - s.send.write_offset
      else 0 in
    if ltb fc_avail avail then fc_avail else avail

-- The two `memcpy`s, and the advance. `none` is a write past the end of the buffer.
unfoldable pub append_bytes : SendBuf → List ℕ → Option SendBuf
append_bytes b bytes =
    elim (copy_in stream_buf_size b.bytes (b.write_offset % stream_buf_size) bytes) [
      | none ↦ none
      | some stored ↦
          some (record b { bytes = stored; write_offset = add64 b.write_offset (length bytes) })
    ]

unfoldable pub queue_fin : Stream → SendBuf → Bool → Stream
queue_fin s b fin = record s { send = if fin then record b { fin = true } else b }

-- `nxp_stream_write`; the result `none` inside is -1.
unfoldable pub write : Stream → List ℕ → Bool → Option (Stream × Option ℕ)
write s bytes fin =
    let len = length bytes in
    let to_write = if ltb len (write_room s) then len else write_room s in
    if is_state s.state half_closed_local || is_state s.state closed || is_state s.state reset
    then some (s, none)
    else if s.send.fin
    then some (s, none)
    else elim (append_bytes s.send (take to_write bytes)) [
      | none ↦ none
      | some b ↦ some (queue_fin s b fin, some to_write)
    ]

-- What `nxp_stream_read` returns, with the stream after it.
pub record ReadResult : Type 0 where
  pub stream : Stream
  pub bytes : List ℕ
  pub fin : Bool

unfoldable pub at_fin : RecvBuf → Bool
at_fin r = r.fin_received && leb r.fin_offset r.read_offset

unfoldable pub read : Stream → ℕ → Option ReadResult
read s buf_len =
    let available = sub64 s.recv.recv_offset s.recv.read_offset in
    let to_read = if ltb buf_len available then buf_len else available in
    let advanced = record s.recv { read_offset = add64 s.recv.read_offset to_read } in
    if leb s.recv.recv_offset s.recv.read_offset
    then some (record { stream = s; bytes = []; fin = at_fin s.recv })
    else elim (copy_out stream_buf_size s.recv.bytes (s.recv.read_offset % stream_buf_size)
        to_read) [
          | none ↦ none
          | some bytes ↦ some (record {
            stream = record s { recv = advanced; flow = Flow.on_consume s.flow to_read };
            bytes = bytes;
            fin = at_fin advanced;
          })
        ]

-- `nxp_stream_unsent`
unfoldable pub unsent : Stream → ℕ
unsent s =
    if leb s.send.write_offset s.send.sent_offset
    then 0
    else s.send.write_offset - s.send.sent_offset

-- How much the next frame carries: what is unsent, at most `max_data_len`, and not past the end of the buffer.
unfoldable pub frame_len : Stream → ℕ → ℕ
frame_len s max_data_len =
    let wanted = if ltb (unsent s) max_data_len then unsent s else max_data_len in
    let first = stream_buf_size - s.send.sent_offset % stream_buf_size in
    if leb wanted first then wanted else first

-- The FIN bit goes out with the last of what was written.
unfoldable pub fin_due : SendBuf → ℕ → Bool
fin_due b len = b.fin && not b.fin_sent && add64 b.sent_offset len == b.write_offset

-- The frame with the next `len` bytes, and the stream after it.
unfoldable pub next_frame : Stream → ℕ → Stream × StreamFrame
next_frame s len =
    let b = s.send in
    (
      record s {
        send = record b {
          fin_sent = if fin_due b len then true else b.fin_sent;
          sent_offset = add64 b.sent_offset len;
        };
      },
      record {
        stream_id = s.id;
        offset = b.sent_offset;
        length = len;
        has_offset = ltb 0 b.sent_offset;
        has_length = true;
        fin = fin_due b len;
        bytes =
            if ltb 0 len then some (load b.bytes (b.sent_offset % stream_buf_size) len) else none;
      },
    )

-- `nxp_stream_fill_frame`; `none` is the result false.
unfoldable pub fill_frame : Stream → ℕ → Option (Stream × StreamFrame)
fill_frame s max_data_len =
    if unsent s == 0 && not (s.send.fin && not s.send.fin_sent)
    then none
    else some (next_frame s (frame_len s max_data_len))

-- The part of a frame's data that the application has not read yet: its offset and its bytes.
unfoldable pub unread_part : ℕ → ℕ → List ℕ → ℕ × List ℕ
unread_part read_offset offset bytes =
    if ltb offset read_offset
    then (read_offset, drop (read_offset - offset) bytes)
    else (offset, bytes)

-- The copy into the receive buffer. `none` is a write past its end.
unfoldable pub store_data : RecvBuf → ℕ → ℕ → List ℕ → Option RecvBuf
store_data r offset end bytes =
    let (start, rest) = unread_part r.read_offset offset bytes in
    elim (copy_in stream_buf_size r.bytes (start % stream_buf_size) rest) [
      | none ↦ none
      | some stored ↦ some (record r {
        bytes = stored;
        recv_offset = if ltb r.recv_offset end then end else r.recv_offset;
      })
    ]

-- The data of a frame, where it has any.
unfoldable pub take_data : Stream → StreamFrame → ℕ → ℕ → Option Stream
take_data s f offset end = elim f.bytes [
  | none ↦ some s
  | some bytes ↦
      let counted = record s { flow = Flow.on_recv s.flow f.length } in
      if f.length == 0
      then some s
      else if leb end s.recv.read_offset
      then some counted
      else elim (store_data s.recv offset end (take f.length bytes)) [
        | none ↦ none
        | some r ↦ some (record counted { recv = r })
      ]
]

-- The end of the peer's side, where the frame has the FIN bit.
unfoldable pub take_fin : Stream → Bool → ℕ → Stream
take_fin s fin end =
    let marked = record s { recv = record s.recv { fin_received = true; fin_offset = end } } in
    if not fin
    then s
    else if is_state s.state opened
    then set_stream_state marked half_closed_remote
    else if is_state s.state half_closed_local
    then set_stream_state marked closed
    else marked

pub data StreamError : Type 0 where
  stream_closed : StreamError
  flow_control : StreamError

-- The body of `nxp_stream_on_recv`, for a frame whose data goes from `offset` up to `end`.
unfoldable pub accept : Stream → StreamFrame → ℕ → ℕ → Option (Stream × Option StreamError)
accept s f offset end =
    if is_state s.state half_closed_remote || is_state s.state closed || is_state s.state reset
    then some (s, some stream_closed)
    else if ltb s.flow.local_max_data end
    then some (s, some flow_control)
    else elim (take_data s f offset end) [
      | none ↦ none
      | some t ↦ some (take_fin t f.fin end, none)
    ]

-- `nxp_stream_on_recv`; the outer `none` is a write past the end of the buffer, the inner one success.
unfoldable pub on_recv : Stream → StreamFrame → Option (Stream × Option StreamError)
on_recv s f =
    let offset = if f.has_offset then f.offset else 0 in accept s f offset (add64 offset f.length)

-- `nxp_stream_on_ack`
unfoldable pub on_ack : Stream → ℕ → ℕ → Bool → Stream
on_ack s offset len fin =
    let end = add64 offset len in
    let b = record s.send {
      acked_offset = if ltb s.send.acked_offset end then end else s.send.acked_offset;
    } in
    let acked = record s { send = record b { fin_acked = true } } in
    if not fin
    then record s { send = b }
    else if is_state s.state half_closed_remote
    then set_stream_state acked closed
    else if is_state s.state opened
    then set_stream_state acked half_closed_local
    else acked

-- `nxp_stream_on_loss`
unfoldable pub on_loss : Stream → ℕ → ℕ → Bool → Stream
on_loss s offset len fin = record s {
  send = record s.send {
    sent_offset = if ltb offset s.send.sent_offset then offset else s.send.sent_offset;
    fin_sent = if fin then false else s.send.fin_sent;
  };
}
