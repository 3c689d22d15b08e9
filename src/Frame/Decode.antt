-- ===== src/Frame/Decode.antt =====
-- `nxp_frame_decode` of src/core/frame.c: one reader for each case of its switch.
use nxp.Prelude.{
  ℕ, ◌+◌, ◌-◌, List, [], ◌∷◌, ◌++◌, none, some, Bool, true, false, ltb, ◌==◌, not, if◌then◌else◌,
  length, replicate, zero, suc,
}
use nxp.Codec.{Parser, ◌>>=◌, pure, reject_if, get_varint, get_byte, get_bytes, get_data}
use nxp.Frame.Types.{
  AckRange, ConnId, Frame, is_stream, max_token_len, max_close_reason_len, max_crypto_frame_data,
  max_stream_frame_data, max_datagram_len, max_stream_id, max_stream_offset, ack_max_ranges,
  max_cid_len,
}
use Prim.Native.Nat.{bit_and}

-- The loop that counts zero bytes; it leaves what follows them.
unfoldable pub count_padding : List ℕ → ℕ × List ℕ
count_padding [] = (0, [])
count_padding (b ∷ rest) =
    let (count, left) = count_padding rest in if b == 0 then (count + 1, left) else (0, b ∷ rest)

unfoldable pub read_padding : Parser Frame
read_padding l = let (count, left) = count_padding l in some (Frame.padding count, left)

-- Without LEN the data extends to the end of the packet: `length = buf_len - pos`.
unfoldable pub remaining : Parser ℕ
remaining l = some (length l, l)

unfoldable pub get_stream_length : Bool → Parser ℕ
get_stream_length has_len = if has_len then get_varint else remaining

unfoldable pub get_if : Bool → Parser ℕ
get_if present = if present then get_varint else pure 0

-- A STREAM frame behind its type byte, by the OFF, LEN and FIN bits of that byte.
unfoldable pub read_stream_fields : Bool → Bool → Bool → Parser Frame
read_stream_fields has_off has_len fin = do
  stream_id ← get_varint
  reject_if (ltb max_stream_id stream_id) (do
    offset ← get_if has_off
    reject_if (ltb max_stream_offset offset) (do
      len ← get_stream_length has_len
      reject_if (ltb max_stream_frame_data len) (do
        bytes ← get_data len
        pure (
            Frame.stream (record {
              stream_id = stream_id;
              offset = offset;
              length = len;
              has_offset = has_off;
              has_length = has_len;
              fin = fin;
              bytes = bytes;
            })))))

unfoldable pub read_stream : ℕ → Parser Frame
read_stream type_byte =
    read_stream_fields (not (bit_and type_byte 0x04 == 0)) (not (bit_and type_byte 0x02 == 0))
      (not (bit_and type_byte 0x01 == 0))

unfoldable pub read_ranges : ℕ → Parser (List AckRange)
read_ranges zero = pure []
read_ranges (suc n) = do
  gap ← get_varint
  ack_range ← get_varint
  rs ← read_ranges n
  pure (record { gap = gap; ack_range = ack_range } ∷ rs)

unfoldable pub read_ack : Bool → Parser Frame
read_ack has_ecn = do
  largest_acked ← get_varint
  ack_delay ← get_varint
  range_count ← get_varint
  reject_if (ltb ack_max_ranges range_count) (do
    first_ack_range ← get_varint
    ranges ← read_ranges range_count
    ect0_count ← get_if has_ecn
    ect1_count ← get_if has_ecn
    ecn_ce_count ← get_if has_ecn
    pure (
        Frame.ack (record {
          largest_acked = largest_acked;
          ack_delay = ack_delay;
          first_ack_range = first_ack_range;
          ranges = ranges;
          has_ecn = has_ecn;
          ect0_count = ect0_count;
          ect1_count = ect1_count;
          ecn_ce_count = ecn_ce_count;
        })))

unfoldable pub read_reset_stream : Parser Frame
read_reset_stream = do
  stream_id ← get_varint
  error_code ← get_varint
  final_size ← get_varint
  pure (
      Frame.reset_stream
        (record { stream_id = stream_id; error_code = error_code; final_size = final_size }))

unfoldable pub read_stop_sending : Parser Frame
read_stop_sending = do
  stream_id ← get_varint
  error_code ← get_varint
  pure (Frame.stop_sending (record { stream_id = stream_id; error_code = error_code }))

unfoldable pub read_crypto : Parser Frame
read_crypto = do
  offset ← get_varint
  len ← get_varint
  reject_if (ltb max_crypto_frame_data len) (do
    bytes ← get_data len
    pure (Frame.crypto (record { offset = offset; length = len; bytes = bytes })))

unfoldable pub read_new_token : Parser Frame
read_new_token = do
  len ← get_varint
  reject_if (ltb max_token_len len)
      (do token ← get_data len; pure (Frame.new_token (record { token_len = len; token = token })))

unfoldable pub read_max_stream_data : Parser Frame
read_max_stream_data = do
  stream_id ← get_varint
  limit ← get_varint
  pure (Frame.max_stream_data (record { stream_id = stream_id; max_stream_data = limit }))

unfoldable pub read_max_streams : Bool → Parser Frame
read_max_streams is_bidi = do
  n ← get_varint
  pure (Frame.max_streams (record { max_streams = n; is_bidi = is_bidi }))

unfoldable pub read_stream_data_blocked : Parser Frame
read_stream_data_blocked = do
  stream_id ← get_varint
  limit ← get_varint
  pure (Frame.stream_data_blocked (record { stream_id = stream_id; max_stream_data = limit }))

unfoldable pub read_streams_blocked : Bool → Parser Frame
read_streams_blocked is_bidi = do
  n ← get_varint
  pure (Frame.streams_blocked (record { max_streams = n; is_bidi = is_bidi }))

-- `if (pos + cid_len + 16 > buf_len) return 0;`
unfoldable pub check_bytes : ℕ → Parser (Unit {0})
check_bytes n l = if ltb (length l) n then none else some (tt, l)

-- The array was cleared by `memset`, so the bytes behind the identifier are 0.
unfoldable pub conn_id : ℕ → List ℕ → ConnId
conn_id len bytes = record { bytes = bytes ++ replicate (max_cid_len - len) 0; len = len }

unfoldable pub read_new_connection_id : Parser Frame
read_new_connection_id = do
  seq_num ← get_varint
  retire_prior_to ← get_varint
  cid_len ← get_byte
  reject_if (ltb max_cid_len cid_len) (do
    _ ← check_bytes (cid_len + 16)
    bytes ← get_bytes cid_len
    token ← get_bytes 16
    pure (
        Frame.new_connection_id (record {
          seq_num = seq_num;
          retire_prior_to = retire_prior_to;
          cid = conn_id cid_len bytes;
          stateless_reset_token = token;
        })))

unfoldable pub read_connection_close : Bool → Parser Frame
read_connection_close is_app = do
  error_code ← get_varint
  frame_type ← get_if (not is_app)
  len ← get_varint
  reject_if (ltb max_close_reason_len len) (do
    reason ← get_data len
    pure (
        Frame.connection_close (record {
          error_code = error_code;
          frame_type = frame_type;
          reason_len = len;
          reason = reason;
          is_app = is_app;
        })))

unfoldable pub read_stream_priority : Parser Frame
read_stream_priority = do
  stream_id ← get_varint
  priority ← get_byte
  pure (Frame.stream_priority (record { stream_id = stream_id; priority = priority }))

unfoldable pub read_datagram : Parser Frame
read_datagram = do
  len ← get_varint
  reject_if (ltb max_datagram_len len)
      (do bytes ← get_data len; pure (Frame.datagram (record { length = len; bytes = bytes })))

-- A frame that is one number behind its type.
abbrev pub read_number : (ℕ → Frame) → Parser Frame
read_number make = do n ← get_varint; pure (make n)

abbrev pub read_path : (List ℕ → Frame) → Parser Frame
read_path make = do bytes ← get_bytes 8; pure (make bytes)

abbrev pub unknown : Parser Frame
unknown l = none

-- The switch on the frame type.
unfoldable pub read_body : ℕ → Parser Frame
read_body t =
    if t == 0x01
    then pure Frame.ping
    else if t == 0x02
    then read_ack false
    else if t == 0x03
    then read_ack true
    else if t == 0x04
    then read_reset_stream
    else if t == 0x05
    then read_stop_sending
    else if t == 0x06
    then read_crypto
    else if t == 0x07
    then read_new_token
    else if t == 0x10
    then read_number Frame.max_data
    else if t == 0x11
    then read_max_stream_data
    else if t == 0x12
    then read_max_streams true
    else if t == 0x13
    then read_max_streams false
    else if t == 0x14
    then read_number Frame.data_blocked
    else if t == 0x15
    then read_stream_data_blocked
    else if t == 0x16
    then read_streams_blocked true
    else if t == 0x17
    then read_streams_blocked false
    else if t == 0x18
    then read_new_connection_id
    else if t == 0x19
    then read_number Frame.retire_connection_id
    else if t == 0x1a
    then read_path Frame.path_challenge
    else if t == 0x1b
    then read_path Frame.path_response
    else if t == 0x1c
    then read_connection_close false
    else if t == 0x1d
    then read_connection_close true
    else if t == 0x1e
    then pure Frame.handshake_done
    else if t == 0x20
    then read_number Frame.heartbeat
    else if t == 0x21
    then read_stream_priority
    else if t == 0x22
    then read_datagram
    else unknown

unfoldable pub decode : Parser Frame
decode [] = none
decode (b ∷ rest) =
    if b == 0
    then read_padding (b ∷ rest)
    else if is_stream b
    then read_stream b rest
    else (do t ← get_varint; read_body t) (b ∷ rest)
