-- ===== src/Frame/Encode.antt =====
-- The encoders of src/core/frame.c, each a sequence of checked writes at the cursor.
use nxp.Prelude.{
  ℕ, ◌+◌, List, [], ◌∷◌, Option, none, some, ◌==◌, ltb, if◌then◌else◌, length, replicate,
}
use nxp.Codec.{Writer, buf_len, ◌>>◌, skip, fail_if, put_varint, put_byte, put_data}
use nxp.Frame.Types.{
  AckRange, AckFrame, ResetStreamFrame, StopSendingFrame, CryptoFrame, NewTokenFrame, StreamFrame,
  MaxStreamDataFrame, MaxStreamsFrame, StreamDataBlockedFrame, StreamsBlockedFrame,
  NewConnectionIdFrame, ConnectionCloseFrame, StreamPriorityFrame, DatagramFrame, Frame,
  max_cid_len,
}
use Prim.Native.Nat.{bit_or}

-- `if (count == 0 || buf_len < count) return 0; memset(buf, 0, count);`
unfoldable pub write_padding : ℕ → Writer
write_padding count = fail_if (count == 0) (put_data (some (replicate count 0)) count)

unfoldable pub write_ping : Writer
write_ping = put_byte 0x01

-- The loop over the additional ranges.
unfoldable pub write_ranges : List AckRange → Writer
write_ranges [] = skip
write_ranges (r ∷ rs) = do put_varint r.gap; put_varint r.ack_range; write_ranges rs

unfoldable pub write_ecn : AckFrame → Writer
write_ecn f =
    if f.has_ecn
    then (do put_varint f.ect0_count; put_varint f.ect1_count; put_varint f.ecn_ce_count; skip)
    else skip

unfoldable pub write_ack : AckFrame → Writer
write_ack f = do
  put_varint (if f.has_ecn then 0x03 else 0x02)
  put_varint f.largest_acked
  put_varint f.ack_delay
  put_varint (length f.ranges)
  put_varint f.first_ack_range
  write_ranges f.ranges
  write_ecn f

unfoldable pub write_reset_stream : ResetStreamFrame → Writer
write_reset_stream f = do
  put_varint 0x04
  put_varint f.stream_id
  put_varint f.error_code
  put_varint f.final_size
  skip

unfoldable pub write_stop_sending : StopSendingFrame → Writer
write_stop_sending f = do put_varint 0x05; put_varint f.stream_id; put_varint f.error_code; skip

unfoldable pub write_crypto : CryptoFrame → Writer
write_crypto f = do
  put_varint 0x06
  put_varint f.offset
  put_varint f.length
  put_data f.bytes f.length
  skip

unfoldable pub write_new_token : NewTokenFrame → Writer
write_new_token f = do put_varint 0x07; put_varint f.token_len; put_data f.token f.token_len; skip

-- The type byte of a STREAM frame, with its OFF, LEN and FIN bits.
unfoldable pub stream_type_byte : StreamFrame → ℕ
stream_type_byte f =
    let t0 = if f.has_offset then bit_or 0x08 0x04 else 0x08 in
    let t1 = if f.has_length then bit_or t0 0x02 else t0 in if f.fin then bit_or t1 0x01 else t1

-- `if (n > 0) { if (pos + n > buf_len) return 0; ... pos += n; }`
unfoldable pub put_data_if : Option (List ℕ) → ℕ → Writer
put_data_if src n = if ltb 0 n then put_data src n else skip

unfoldable pub write_stream : StreamFrame → Writer
write_stream f = do
  put_byte (stream_type_byte f)
  put_varint f.stream_id
  (if f.has_offset then put_varint f.offset else skip)
  (if f.has_length then put_varint f.length else skip)
  put_data_if f.bytes (if f.has_length then f.length else 0)
  skip

unfoldable pub write_max_data : ℕ → Writer
write_max_data m = do put_varint 0x10; put_varint m; skip

unfoldable pub write_max_stream_data : MaxStreamDataFrame → Writer
write_max_stream_data f = do
  put_varint 0x11
  put_varint f.stream_id
  put_varint f.max_stream_data
  skip

unfoldable pub write_max_streams : MaxStreamsFrame → Writer
write_max_streams f = do
  put_varint (if f.is_bidi then 0x12 else 0x13)
  put_varint f.max_streams
  skip

unfoldable pub write_data_blocked : ℕ → Writer
write_data_blocked m = do put_varint 0x14; put_varint m; skip

unfoldable pub write_stream_data_blocked : StreamDataBlockedFrame → Writer
write_stream_data_blocked f = do
  put_varint 0x15
  put_varint f.stream_id
  put_varint f.max_stream_data
  skip

unfoldable pub write_streams_blocked : StreamsBlockedFrame → Writer
write_streams_blocked f = do
  put_varint (if f.is_bidi then 0x16 else 0x17)
  put_varint f.max_streams
  skip

-- `if (pos + 1 + cid.len + 16 > buf_len) return 0;`
unfoldable pub check_cid_room : ℕ → Writer
check_cid_room len c = if ltb (buf_len c) (c.pos + 1 + len + 16) then none else skip c

unfoldable pub write_new_connection_id : NewConnectionIdFrame → Writer
write_new_connection_id f = fail_if (ltb max_cid_len f.cid.len) (do
  put_varint 0x18
  put_varint f.seq_num
  put_varint f.retire_prior_to
  check_cid_room f.cid.len
  put_byte f.cid.len
  put_data (some f.cid.bytes) f.cid.len
  put_data (some f.stateless_reset_token) 16
  skip)

unfoldable pub write_retire_connection_id : ℕ → Writer
write_retire_connection_id n = do put_varint 0x19; put_varint n; skip

unfoldable pub write_path_challenge : List ℕ → Writer
write_path_challenge bytes = do put_varint 0x1a; put_data (some bytes) 8; skip

unfoldable pub write_path_response : List ℕ → Writer
write_path_response bytes = do put_varint 0x1b; put_data (some bytes) 8; skip

unfoldable pub write_connection_close : ConnectionCloseFrame → Writer
write_connection_close f = do
  put_varint (if f.is_app then 0x1d else 0x1c)
  put_varint f.error_code
  (if f.is_app then skip else put_varint f.frame_type)
  put_varint f.reason_len
  put_data_if f.reason f.reason_len
  skip

unfoldable pub write_handshake_done : Writer
write_handshake_done = do put_varint 0x1e; skip

unfoldable pub write_heartbeat : ℕ → Writer
write_heartbeat timestamp_us = do put_varint 0x20; put_varint timestamp_us; skip

unfoldable pub write_stream_priority : StreamPriorityFrame → Writer
write_stream_priority f = do put_varint 0x21; put_varint f.stream_id; put_byte f.priority; skip

unfoldable pub write_datagram : DatagramFrame → Writer
write_datagram f = do put_varint 0x22; put_varint f.length; put_data_if f.bytes f.length; skip

-- The encoder that belongs to a frame.
unfoldable pub write_frame : Frame → Writer
write_frame (Frame.padding n) = write_padding n
write_frame Frame.ping = write_ping
write_frame (Frame.ack f) = write_ack f
write_frame (Frame.reset_stream f) = write_reset_stream f
write_frame (Frame.stop_sending f) = write_stop_sending f
write_frame (Frame.crypto f) = write_crypto f
write_frame (Frame.new_token f) = write_new_token f
write_frame (Frame.stream f) = write_stream f
write_frame (Frame.max_data n) = write_max_data n
write_frame (Frame.max_stream_data f) = write_max_stream_data f
write_frame (Frame.max_streams f) = write_max_streams f
write_frame (Frame.data_blocked n) = write_data_blocked n
write_frame (Frame.stream_data_blocked f) = write_stream_data_blocked f
write_frame (Frame.streams_blocked f) = write_streams_blocked f
write_frame (Frame.new_connection_id f) = write_new_connection_id f
write_frame (Frame.retire_connection_id n) = write_retire_connection_id n
write_frame (Frame.path_challenge n) = write_path_challenge n
write_frame (Frame.path_response n) = write_path_response n
write_frame (Frame.connection_close f) = write_connection_close f
write_frame Frame.handshake_done = write_handshake_done
write_frame (Frame.heartbeat n) = write_heartbeat n
write_frame (Frame.stream_priority f) = write_stream_priority f
write_frame (Frame.datagram f) = write_datagram f
