-- ===== src/Frame/RoundTrip/Plain.antt =====
-- Round trips of the frames that are a row of numbers behind a type.
use nxp.Prelude.{ℕ, refl, arith, Bool, true, false}
use nxp.Codec.{get_varint, put_varint, pure, ◌>>=◌, ◌>>◌, skip}
use nxp.Codec.Laws.{Reads, >>-Reads, put_byte-Reads, pure-Reads}
use nxp.Frame.Types.{
  Frame, ResetStreamFrame, StopSendingFrame, MaxStreamDataFrame, MaxStreamsFrame,
  StreamDataBlockedFrame, StreamsBlockedFrame, StreamPriorityFrame, is_stream,
}
use nxp.Frame.Encode.{
  write_reset_stream, write_stop_sending, write_max_data, write_max_stream_data, write_max_streams,
  write_data_blocked, write_stream_data_blocked, write_streams_blocked, write_retire_connection_id,
  write_handshake_done, write_heartbeat, write_stream_priority,
}
use nxp.Frame.Decode.{
  decode, read_body, read_reset_stream, read_stop_sending, read_max_stream_data, read_max_streams,
  read_stream_data_blocked, read_streams_blocked, read_stream_priority,
}
use nxp.Frame.RoundTrip.Common.{type-Reads, varint->>-Reads}

-- The numbers that stand behind a type, one to three of them.
one :
    (n : ℕ) (make : ℕ → Frame)
    → Reads (do a ← get_varint; pure (make a)) (put_varint n >> skip) (make n)
one n make = varint->>-Reads n _ _ _ (pure-Reads (make n))

two :
    (n m : ℕ) (make : ℕ → ℕ → Frame)
    → Reads
        (do a ← get_varint; b ← get_varint; pure (make a b))
        (put_varint n >> put_varint m >> skip)
        (make n m)
two n m make = varint->>-Reads n _ _ _ (one m (make n))

pub reset_stream-Reads :
    (f : ResetStreamFrame) → Reads decode (write_reset_stream f) (Frame.reset_stream f)
unfolding write_reset_stream read_body read_reset_stream is_stream
reset_stream-Reads f =
    type-Reads 0x04 _ _ (omega arith) (omega arith) refl (varint->>-Reads _ _ _ _ (two _ _ _))

pub stop_sending-Reads :
    (f : StopSendingFrame) → Reads decode (write_stop_sending f) (Frame.stop_sending f)
unfolding write_stop_sending read_body read_stop_sending is_stream
stop_sending-Reads f = type-Reads 0x05 _ _ (omega arith) (omega arith) refl (two _ _ _)

pub max_data-Reads : (n : ℕ) → Reads decode (write_max_data n) (Frame.max_data n)
unfolding write_max_data read_body is_stream
max_data-Reads n = type-Reads 0x10 _ _ (omega arith) (omega arith) refl (one n Frame.max_data)

pub max_stream_data-Reads :
    (f : MaxStreamDataFrame) → Reads decode (write_max_stream_data f) (Frame.max_stream_data f)
unfolding write_max_stream_data read_body read_max_stream_data is_stream
max_stream_data-Reads f = type-Reads 0x11 _ _ (omega arith) (omega arith) refl (two _ _ _)

pub data_blocked-Reads : (n : ℕ) → Reads decode (write_data_blocked n) (Frame.data_blocked n)
unfolding write_data_blocked read_body is_stream
data_blocked-Reads n =
    type-Reads 0x14 _ _ (omega arith) (omega arith) refl (one n Frame.data_blocked)

pub stream_data_blocked-Reads :
    (f : StreamDataBlockedFrame)
    → Reads decode (write_stream_data_blocked f) (Frame.stream_data_blocked f)
unfolding write_stream_data_blocked read_body read_stream_data_blocked is_stream
stream_data_blocked-Reads f = type-Reads 0x15 _ _ (omega arith) (omega arith) refl (two _ _ _)

pub retire_connection_id-Reads :
    (n : ℕ) → Reads decode (write_retire_connection_id n) (Frame.retire_connection_id n)
unfolding write_retire_connection_id read_body is_stream
retire_connection_id-Reads n =
    type-Reads 0x19 _ _ (omega arith) (omega arith) refl (one n Frame.retire_connection_id)

pub heartbeat-Reads : (n : ℕ) → Reads decode (write_heartbeat n) (Frame.heartbeat n)
unfolding write_heartbeat read_body is_stream
heartbeat-Reads n = type-Reads 0x20 _ _ (omega arith) (omega arith) refl (one n Frame.heartbeat)

pub handshake_done-Reads : Reads decode write_handshake_done Frame.handshake_done
unfolding write_handshake_done read_body is_stream
handshake_done-Reads =
    type-Reads 0x1e _ _ (omega arith) (omega arith) refl (pure-Reads Frame.handshake_done)

pub stream_priority-Reads :
    (f : StreamPriorityFrame) → Reads decode (write_stream_priority f) (Frame.stream_priority f)
unfolding write_stream_priority read_body read_stream_priority is_stream
stream_priority-Reads f =
    type-Reads 0x21 _ _ (omega arith) (omega arith) refl
      (varint->>-Reads _ _ _ _ (>>-Reads _ _ _ _ _ _ (put_byte-Reads _) (pure-Reads _)))

pub max_streams-Reads :
    (n : ℕ) (bidi : Bool)
    → let f : MaxStreamsFrame = record { max_streams = n; is_bidi = bidi } in
      Reads decode (write_max_streams f) (Frame.max_streams f)
unfolding write_max_streams read_body read_max_streams is_stream
max_streams-Reads n true = type-Reads 0x12 _ _ (omega arith) (omega arith) refl (one n _)
max_streams-Reads n false = type-Reads 0x13 _ _ (omega arith) (omega arith) refl (one n _)

pub streams_blocked-Reads :
    (n : ℕ) (bidi : Bool)
    → let f : StreamsBlockedFrame = record { max_streams = n; is_bidi = bidi } in
      Reads decode (write_streams_blocked f) (Frame.streams_blocked f)
unfolding write_streams_blocked read_body read_streams_blocked is_stream
streams_blocked-Reads n true = type-Reads 0x16 _ _ (omega arith) (omega arith) refl (one n _)
streams_blocked-Reads n false = type-Reads 0x17 _ _ (omega arith) (omega arith) refl (one n _)
