-- ===== src/Frame/Types.antt =====
-- Parsed frames: src/core/frame_internal.h, the frame types of include/nxp/nxp_types.h, and the
-- limits at the top of src/core/frame.c.
use nxp.Prelude.{ℕ, ◌^◌, List, Option, Bool, not, ◌&&◌, ◌==◌}
use Prim.Native.Nat.{bit_and}

abbrev pub max_token_len : ℕ
max_token_len = 1024

abbrev pub max_close_reason_len : ℕ
max_close_reason_len = 1024

abbrev pub max_crypto_frame_data : ℕ
max_crypto_frame_data = 16384

abbrev pub max_stream_frame_data : ℕ
max_stream_frame_data = 1048576

abbrev pub max_datagram_len : ℕ
max_datagram_len = 65536

abbrev pub max_stream_id : ℕ
max_stream_id = 2 ^ 60

abbrev pub max_stream_offset : ℕ
max_stream_offset = 2 ^ 60

abbrev pub ack_max_ranges : ℕ
ack_max_ranges = 64

abbrev pub max_cid_len : ℕ
max_cid_len = 20

-- A pointer with the bytes that may be read behind it.
abbrev pub Bytes? : Type 0
Bytes? = Option (List ℕ)

pub record AckRange : Type 0 where
  pub gap : ℕ
  pub ack_range : ℕ

-- `ranges` holds the `range_count` ranges in use, so its length is that count.
pub record AckFrame : Type 0 where
  pub largest_acked : ℕ
  pub ack_delay : ℕ
  pub first_ack_range : ℕ
  pub ranges : List AckRange
  pub has_ecn : Bool
  pub ect0_count : ℕ
  pub ect1_count : ℕ
  pub ecn_ce_count : ℕ

pub record ResetStreamFrame : Type 0 where
  pub stream_id : ℕ
  pub error_code : ℕ
  pub final_size : ℕ

pub record StopSendingFrame : Type 0 where
  pub stream_id : ℕ
  pub error_code : ℕ

pub record CryptoFrame : Type 0 where
  pub offset : ℕ
  pub length : ℕ
  pub bytes : Bytes?

pub record NewTokenFrame : Type 0 where
  pub token_len : ℕ
  pub token : Bytes?

pub record StreamFrame : Type 0 where
  pub stream_id : ℕ
  pub offset : ℕ
  pub length : ℕ
  pub has_offset : Bool
  pub has_length : Bool
  pub fin : Bool
  pub bytes : Bytes?

pub record MaxStreamDataFrame : Type 0 where
  pub stream_id : ℕ
  pub max_stream_data : ℕ

pub record MaxStreamsFrame : Type 0 where
  pub max_streams : ℕ
  pub is_bidi : Bool

pub record StreamDataBlockedFrame : Type 0 where
  pub stream_id : ℕ
  pub max_stream_data : ℕ

pub record StreamsBlockedFrame : Type 0 where
  pub max_streams : ℕ
  pub is_bidi : Bool

-- `nxp_conn_id`: an array of 20 bytes, of which `len` are in use.
pub record ConnId : Type 0 where
  pub bytes : List ℕ
  pub len : ℕ

pub record NewConnectionIdFrame : Type 0 where
  pub seq_num : ℕ
  pub retire_prior_to : ℕ
  pub cid : ConnId
  pub stateless_reset_token : List ℕ

pub record ConnectionCloseFrame : Type 0 where
  pub error_code : ℕ
  pub frame_type : ℕ
  pub reason_len : ℕ
  pub reason : Bytes?
  pub is_app : Bool

pub record StreamPriorityFrame : Type 0 where
  pub stream_id : ℕ
  pub priority : ℕ

pub record DatagramFrame : Type 0 where
  pub length : ℕ
  pub bytes : Bytes?

-- `nxp_frame`, the tagged union. The tag of a frame with two types, such as ACK and ACK_ECN, is in
-- a field of its payload.
pub data Frame : Type 0 where
  padding : ℕ → Frame
  ping : Frame
  ack : AckFrame → Frame
  reset_stream : ResetStreamFrame → Frame
  stop_sending : StopSendingFrame → Frame
  crypto : CryptoFrame → Frame
  new_token : NewTokenFrame → Frame
  stream : StreamFrame → Frame
  max_data : ℕ → Frame
  max_stream_data : MaxStreamDataFrame → Frame
  max_streams : MaxStreamsFrame → Frame
  data_blocked : ℕ → Frame
  stream_data_blocked : StreamDataBlockedFrame → Frame
  streams_blocked : StreamsBlockedFrame → Frame
  new_connection_id : NewConnectionIdFrame → Frame
  retire_connection_id : ℕ → Frame
  path_challenge : List ℕ → Frame
  path_response : List ℕ → Frame
  connection_close : ConnectionCloseFrame → Frame
  handshake_done : Frame
  heartbeat : ℕ → Frame
  stream_priority : StreamPriorityFrame → Frame
  datagram : DatagramFrame → Frame

-- `nxp_frame_is_stream`
unfoldable pub is_stream : ℕ → Bool
is_stream type_byte = bit_and type_byte 0xf8 == 0x08

-- `nxp_frame_is_ack_eliciting`
unfoldable pub is_ack_eliciting : ℕ → Bool
is_ack_eliciting type =
    not (type == 0x00)
    && (not (type == 0x02) && (not (type == 0x03) && (not (type == 0x1c) && not (type == 0x1d))))
