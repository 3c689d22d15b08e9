-- ===== src/Connection.antt =====
-- The connection: src/core/connection.c, and `nxp_conn` of src/core/connection_internal.h. The hash map of
-- the streams is a test that tells the ids it has; the streams themselves are in a store by their id, with
-- what the store of src/core/stream.c leaves out: whether a stream is blocked, and whether it has a callback.
-- The calls of the application's callbacks are kept as lists; what the application does in them is not
-- modelled. The allocations of a connection and of its congestion controller succeed.
pub mod States
pub mod StreamId
pub mod Acked
pub mod Frames
pub mod Receive
pub mod Send
pub mod Keeps
pub mod Api
pub mod Run
pub mod Stuck
pub mod Forged
pub mod Credit
pub mod Ends
pub mod Timers
mod Tests
use nxp.Prelude.{ℕ, ◌*◌, List, [], Option, none, some, Bool, true, false, not, ◌==◌, if◌then◌else◌}
use nxp.Stream
use nxp.Stream.{Stream, StreamType}
use nxp.Flow
use nxp.Flow.{FlowCtrl}
use nxp.Ack.Types
use nxp.Ack.Types.{AckState}
use nxp.Bbr
use nxp.Bbr.{Bbr}
use nxp.Pacer
use nxp.Pacer.{Pacer}
use nxp.DeliveryRate
use nxp.DeliveryRate.{DeliveryRate}
use nxp.Heartbeat
use nxp.Heartbeat.{Heartbeat}
use nxp.Migration
use nxp.Migration.{Addr, MigrationState}
use nxp.Frame.Types.{ConnId}
use nxp.Scheduler
use nxp.Scheduler.{Sched}
use nxp.Connection.States.{ConnState}

-- `NXP_PACKET_BUF_SIZE` and `NXP_AEAD_TAG_LEN`
abbrev pub packet_buf_size : ℕ
packet_buf_size = 1536

abbrev pub aead_tag_len : ℕ
aead_tag_len = 16

-- `NXP_MAX_STREAM_FRAMES_PER_PKT`
abbrev pub max_stream_frames_per_pkt : ℕ
max_stream_frames_per_pkt = 8

-- `NXP_DEFAULT_MAX_DATA`, `NXP_DEFAULT_MAX_STREAM_DATA`, `NXP_DEFAULT_IDLE_TIMEOUT`, `NXP_MAX_STREAMS_DEFAULT`
abbrev pub default_max_data : ℕ
default_max_data = 1 * 1024 * 1024

abbrev pub default_max_stream_data : ℕ
default_max_stream_data = 256 * 1024

abbrev pub default_idle_timeout : ℕ
default_idle_timeout = 30 * 1000000

abbrev pub max_streams_default : ℕ
max_streams_default = 256

pub record ConnStats : Type 0 where
  pub bytes_sent : ℕ
  pub bytes_recv : ℕ
  pub packets_sent : ℕ
  pub packets_recv : ℕ
  pub packets_lost : ℕ
  pub rtt_min_us : ℕ
  pub rtt_smoothed_us : ℕ
  pub rtt_var_us : ℕ
  pub cwnd : ℕ
  pub bytes_in_flight : ℕ
  pub streams_opened : ℕ
  pub handshake_time_us : ℕ

pub record TransportParams : Type 0 where
  pub initial_max_data : ℕ
  pub initial_max_stream_data : ℕ
  pub max_streams_bidi : ℕ
  pub max_streams_uni : ℕ
  pub idle_timeout_us : ℕ
  pub max_early_data : ℕ
  pub active_cid_limit : ℕ

pub data HsState : Type 0 where
  idle wait_server_hello wait_client_hello wait_handshake_done zero_rtt_sent complete : HsState

-- The part of `nxp_handshake` that the frames of a connection reach.
pub record Handshake : Type 0 where
  pub state : HsState
  pub has_peer_params : Bool
  pub peer_params : TransportParams
  pub session_ticket : List ℕ
  pub has_session_ticket : Bool

pub record ConnConfig : Type 0 where
  pub scid : ConnId
  pub peer_addr : Addr
  pub idle_timeout_us : ℕ
  pub initial_max_data : ℕ
  pub initial_max_stream_data : ℕ
  pub max_streams_bidi : ℕ
  pub max_streams_uni : ℕ

-- What src/crypto does with the keys of a connection, in their two directions: `nxp_hp_unprotect` on a packet
-- whose number is at an offset, `nxp_aead_decrypt` and `nxp_aead_encrypt` with the nonce of a packet number,
-- the header and the text, and `nxp_hp_protect`.
pub record Protection : Type 0 where
  pub hp_unprotect : List ℕ → ℕ → Option (List ℕ)
  pub aead_decrypt : ℕ → List ℕ → List ℕ → Option (List ℕ)
  pub aead_encrypt : ℕ → List ℕ → List ℕ → Option (List ℕ)
  pub hp_protect : List ℕ → ℕ → ℕ → List ℕ

pub record Conn : Type 0 where
  pub scid : ConnId
  pub dcid : ConnId
  pub state : ConnState
  pub is_server : Bool
  pub peer_addr : Addr
  pub next_pkt_num : ℕ
  pub ack : AckState
  pub crypto : Option Protection
  pub handshake : Option Handshake
  pub migration : MigrationState
  pub cc_state : Bbr
  pub pacer : Pacer
  pub delivery_rate : DeliveryRate
  pub heartbeat : Heartbeat
  pub auto_reconnect : Bool
  pub max_reconnect_attempts : ℕ
  pub streams : ℕ → Bool
  pub stream_at : ℕ → Stream
  pub blocked : ℕ → Bool
  pub on_writable : ℕ → Bool
  pub next_bidi_id : ℕ
  pub next_uni_id : ℕ
  pub local_max_streams_bidi : ℕ
  pub local_max_streams_uni : ℕ
  pub peer_max_streams_bidi : ℕ
  pub peer_max_streams_uni : ℕ
  pub open_bidi_count : ℕ
  pub open_uni_count : ℕ
  pub conn_flow : FlowCtrl
  pub sched : Sched
  pub initial_max_stream_data : ℕ
  pub idle_timeout_us : ℕ
  pub last_activity_us : ℕ
  pub send_ping : Bool
  pub send_conn_close : Bool
  pub close_error_code : ℕ
  pub stats : ConnStats
  pub writable_calls : List ℕ
  pub new_stream_calls : List ℕ

unfoldable pub or_default : ℕ → ℕ → ℕ
or_default n default = if n == 0 then default else n

abbrev no_stats : ConnStats
no_stats = record {
  bytes_sent = 0;
  bytes_recv = 0;
  packets_sent = 0;
  packets_recv = 0;
  packets_lost = 0;
  rtt_min_us = 0;
  rtt_smoothed_us = 0;
  rtt_var_us = 0;
  cwnd = 0;
  bytes_in_flight = 0;
  streams_opened = 0;
  handshake_time_us = 0;
}

abbrev no_cid : ConnId
no_cid = record { bytes = []; len = 0 }

-- `nxp_conn_create`. A stream that the map does not have has no object yet; the one in the store is never
-- looked at.
unfoldable pub create : ConnConfig → Bool → Conn
create config is_server = record {
  scid = config.scid;
  dcid = no_cid;
  state = ConnState.idle;
  is_server = is_server;
  peer_addr = config.peer_addr;
  next_pkt_num = 0;
  ack = Types.init;
  crypto = none;
  handshake = none;
  migration = Migration.init;
  cc_state = Bbr.init_state;
  pacer = Pacer.init;
  delivery_rate = DeliveryRate.init;
  heartbeat = Heartbeat.init 0;
  auto_reconnect = false;
  max_reconnect_attempts = 3;
  streams = λ id. false;
  stream_at = λ id. Stream.create id StreamType.reliable 0 0;
  blocked = λ id. false;
  on_writable = λ id. false;
  next_bidi_id = 0;
  next_uni_id = 0;
  local_max_streams_bidi = config.max_streams_bidi;
  local_max_streams_uni = config.max_streams_uni;
  peer_max_streams_bidi = or_default config.max_streams_bidi max_streams_default;
  peer_max_streams_uni = or_default config.max_streams_uni max_streams_default;
  open_bidi_count = 0;
  open_uni_count = 0;
  conn_flow =
      Flow.init (or_default config.initial_max_data default_max_data)
        (or_default config.initial_max_data default_max_data);
  sched = Scheduler.init;
  initial_max_stream_data = or_default config.initial_max_stream_data default_max_stream_data;
  idle_timeout_us = or_default config.idle_timeout_us default_idle_timeout;
  last_activity_us = 0;
  send_ping = false;
  send_conn_close = false;
  close_error_code = 0;
  stats = no_stats;
  writable_calls = [];
  new_stream_calls = [];
}

-- `set_conn_state`; a transition that is not allowed is ignored.
unfoldable pub set_conn_state : Conn → ConnState → Conn
set_conn_state conn new_state =
    if States.is_valid_conn_state_transition conn.state new_state
    then record conn { state = new_state }
    else conn

-- `nxp_conn_set_established`
unfoldable pub set_established : Conn → ConnId → Conn
set_established conn dcid = set_conn_state (record conn { dcid = dcid }) ConnState.established
