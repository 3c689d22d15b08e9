-- ===== src/Connection/Tests.antt =====
-- Runs of a connection, and the theorems at concrete states.
use nxp.Prelude.{
  ℕ, ◌^◌, replicate, ◌<◌, ◌≡◌, refl, arith, List, [], ◌∷◌, none, some, Bool, true, false, ◌==◌,
}
use nxp.Frame.Types.{ConnId}
use nxp.Stream
use nxp.Stream.{StreamType, unsent}
use nxp.StreamRate
use nxp.Flow
use nxp.Packet.{ShortHeader}
use nxp.Ack.Types
use nxp.Scheduler.{is_idle}
use nxp.Scheduler.Queue.{IsQueue}
use nxp.Connection.{
  Conn, ConnConfig, Protection, TransportParams, create, or_default, set_conn_state,
  set_established,
}
use nxp.Connection.States.{ConnState, number, is_state, is_valid_conn_state_transition, follows}
use nxp.Connection.StreamId.{make_stream_id, stream_id_is_local, type_number}
use nxp.Connection.Frames.{ConnError, process_frames}
use nxp.Connection.Api.{
  Started, at_limit, next_id, put_stream, count_stream, open_stream, start_handshake,
}
use nxp.Connection.Send.{Packing}
use nxp.Connection.Send.Streams.{Packed, is_full, pack_streams}
use nxp.Connection.Keeps.Frames.{IsHandled, process_frames-IsHandled}
use nxp.Connection.Run.{Run, Step, IsSound, begin, more, Run-IsSound, open_stream-fresh}
use nxp.Connection.Stuck.{IsStarved, pack_streams-starved, start_handshake-refused}
use nxp.Connection.Ends.{AreUnlimited, IsPacked, pack_streams-IsPacked}
use nxp.Connection.Credit.{IsWithin, IsAllPaid, pack_streams-IsWithin}

abbrev id_4 : ConnId
id_4 = record { bytes = 1 ∷ 2 ∷ 3 ∷ 4 ∷ []; len = 4 }

abbrev config : ConnConfig
config = record {
  scid = id_4;
  peer_addr = record { bytes = 127 ∷ 0 ∷ 0 ∷ 1 ∷ []; len = 4 };
  idle_timeout_us = 0;
  initial_max_data = 0;
  initial_max_stream_data = 0;
  max_streams_bidi = 2;
  max_streams_uni = 0;
}

abbrev client : Conn
client = create config false

abbrev up : Conn
up = set_established client id_4

abbrev with_stream_0 : Conn
with_stream_0 = (open_stream up StreamType.reliable false).0

few : (up.next_bidi_id < 2 ^ 60) × (up.next_uni_id < 2 ^ 60)
unfolding set_established set_conn_state create is_valid_conn_state_transition follows is_state
    number
few = (omega arith, omega arith)

first_id : (open_stream up StreamType.reliable false).1 ≡ some 0
unfolding open_stream at_limit next_id make_stream_id type_number set_established set_conn_state
    create is_valid_conn_state_transition follows is_state number or_default
first_id = refl

client-IsSound : IsSound client
client-IsSound = Run-IsSound config false client begin

up-IsSound : IsSound up
up-IsSound = Run-IsSound config false up (more begin (Step.established id_4))

room_for_one : at_limit up false ≡ false
unfolding at_limit set_established set_conn_state create is_valid_conn_state_transition follows
    is_state number or_default
room_for_one = refl

open_stream-fresh_example :
    (open_stream up StreamType.reliable false ≡ (
      count_stream (put_stream up (next_id up StreamType.reliable false) StreamType.reliable) false,
      some (next_id up StreamType.reliable false),
    ))
    × (up.streams (next_id up StreamType.reliable false) ≡ false)
    × (stream_id_is_local (next_id up StreamType.reliable false) up.is_server ≡ true)
    × IsSound (
        count_stream
          (put_stream up (next_id up StreamType.reliable false) StreamType.reliable)
          false)
open_stream-fresh_example =
    open_stream-fresh up StreamType.reliable false few.0 few.1 up-IsSound room_for_one

-- A PING frame, MAX_DATA with the number 5, and a byte that begins no frame.
abbrev payload : List ℕ
payload = 0x01 ∷ 0x10 ∷ 0x05 ∷ 0x3f ∷ []

process_frames-IsHandled_example : IsHandled client (process_frames 4 client payload 100)
process_frames-IsHandled_example =
    process_frames-IsHandled 100 4 client payload
      (omega arith, (omega arith, (omega arith, (omega arith, tt)))) (omega arith) (omega arith)
      client-IsSound.queue

abbrev refusing : Bool → TransportParams → ConnId → Started
refusing server params cid = Started.refused ConnError.crypto_fail

client-idle : is_state client.state ConnState.idle ≡ true
unfolding is_state number create
client-idle = refl

start_handshake-refused_example :
    let after = (start_handshake refusing client id_4).0 in
    ((start_handshake refusing client id_4).1 ≡ some ConnError.crypto_fail)
    × (is_state after.state ConnState.handshake_initial ≡ true)
    × (after.handshake ≡ client.handshake)
    × (start_handshake refusing after id_4 ≡ (after, some ConnError.invalid_argument))
start_handshake-refused_example =
    start_handshake-refused refusing refusing client id_4 id_4 ConnError.crypto_fail client-idle
      refl

-- Keys under which nothing decrypts.
abbrev rejecting : Protection
rejecting = record {
  hp_unprotect = λ buf n. some buf;
  aead_decrypt = λ n header ct. none;
  aead_encrypt = λ n header text. none;
  hp_protect = λ out n k. out;
}

abbrev guarded : Conn
guarded = record client { crypto = some rejecting }

abbrev forged : List ℕ
forged = 0x40 ∷ 1 ∷ 2 ∷ 3 ∷ 4 ∷ 7 ∷ 99 ∷ []

abbrev forged_hdr : ShortHeader
forged_hdr = record {
  dcid = record { bytes = 1 ∷ 2 ∷ 3 ∷ 4 ∷ replicate 16 0; len = 4 };
  spin_bit = false;
  key_phase = false;
  pkt_num = 7;
  pkt_num_len = 1;
  header_len = 6;
  pkt_num_offset = 5;
}

guarded-new :
    (guarded.ack.recv_ranges ≡ []) × (guarded.ack.largest_recv_pn ≡ 0) × (guarded.scid ≡ id_4)
unfolding create nxp.Ack.Types.init
guarded-new = (refl, refl, refl)

-- Stream 0 has five bytes to send and no budget left.
abbrev starved : Packing
starved = record {
  conn = record client {
    stream_at = λ id.
        let s = Stream.create id StreamType.reliable 1000 1000 in
        record s {
          send = record s.send { write_offset = 5 };
          rate_limit = record s.rate_limit { rate_bps = 100; enabled = true };
        };
    sched = record {
      sched_head = some 0;
      sched_next = λ id. some 0;
      sched_prev = λ id. some 0;
      scheduled = λ id. id == 0;
    };
  };
  bytes = [];
  space = 1000;
  has_ack_eliciting = false;
  frames = [];
}

starved-IsStarved : IsStarved 0 100 starved
unfolding create is_full is_idle unsent Stream.create Flow.can_send Flow.init StreamRate.budget
    StreamRate.update StreamRate.init or_default
starved-IsStarved = record {
  room = refl;
  head = refl;
  alone = refl;
  busy = refl;
  credit = refl;
  limited = refl;
  spent = refl;
}

pack_streams-starved_example : pack_streams 1000 starved 100 ≡ Packed.out_of_fuel
pack_streams-starved_example = pack_streams-starved 1000 0 100 starved starved-IsStarved

starved-IsWithin : IsWithin starved.conn.conn_flow
unfolding create Flow.init or_default
starved-IsWithin = (omega arith, omega arith)

abbrev sending : Packing
sending = record starved {
  conn = record starved.conn {
    stream_at = λ id.
        let s = Stream.create id StreamType.reliable 1000 1000 in
        record s { send = record s.send { write_offset = 5 } };
  };
}

pack_streams-IsWithin_example : IsAllPaid (pack_streams 9 sending 100)
pack_streams-IsWithin_example = pack_streams-IsWithin 100 9 sending starved-IsWithin

sending-IsQueue : IsQueue sending.conn.sched (0 ∷ [])
sending-IsQueue = record {
  head = refl;
  ring = (refl, refl);
  distinct = (refl, tt);
  marks = λ a. ground arith;
}

sending-AreUnlimited : AreUnlimited sending.conn.stream_at
unfolding Stream.create StreamRate.init
sending-AreUnlimited id = refl

pack_streams-IsPacked_example : IsPacked (pack_streams 10 sending 100)
pack_streams-IsPacked_example =
    pack_streams-IsPacked 100 10 sending (0 ∷ []) sending-IsQueue sending-AreUnlimited (omega arith)
