-- ===== src/Connection/Send/Streams.antt =====
-- The data of the streams in a packet: the loop over the scheduler of `nxp_conn_send`, and the packet around
-- the frames.
use nxp.Prelude.{
  ℕ, zero, suc, ◌+◌, ◌-◌, ◌%◌, ◌++◌, ◌&&◌, ◌||◌, List, [], ◌∷◌, Option, none, some, Bool, true,
  false, not, ltb, leb, ◌==◌, if◌then◌else◌, length,
}
use nxp.Prelude.Word.{add64, u32_mod}
use nxp.Frame.Types.{StreamFrame}
use nxp.Frame.Encode.{write_stream}
use nxp.Packet.{ShortHeader}
use nxp.Packet.Encode.{encode_short_header}
use nxp.Packet.Number.{pkt_num_len}
use nxp.Ack.Types.{SentPkt, DrPktState, StreamFrameRecord}
use nxp.Ack.Sent.{on_pkt_sent}
use nxp.Flow
use nxp.StreamRate
use nxp.Stream
use nxp.Stream.{Stream, unsent}
use nxp.Bbr
use nxp.Bbr.{max_datagram_size}
use nxp.Pacer
use nxp.DeliveryRate
use nxp.DeliveryRate.{PktState}
use nxp.Heartbeat
use nxp.Migration
use nxp.Scheduler
use nxp.Scheduler.{Sched, Ptr, assign, is_idle}
use nxp.Connection.{Conn, Protection, packet_buf_size, aead_tag_len, max_stream_frames_per_pkt}
use nxp.Connection.States.{ConnState, is_state}
use nxp.Connection.Send.{Packing, encoded, add_control}

pub data Turn : Type 0 where
  again : Packing → Turn
  stop : Packing → Turn
  fault : Turn

unfoldable pub with_stream : Packing → ℕ → Stream → Packing
with_stream p id s = record p { conn = record p.conn { stream_at = assign p.conn.stream_at id s } }

unfoldable pub smaller : ℕ → ℕ → ℕ
smaller a b = if ltb b a then b else a

-- How much data there is room for, and credit of the peer.
unfoldable pub max_data_of : Packing → ℕ
max_data_of p =
    let avail = p.space - length p.bytes in
    let flow = p.conn.conn_flow in
    smaller (if ltb 20 avail then avail - 20 else 0)
      (if ltb flow.data_sent flow.peer_max_data then flow.peer_max_data - flow.data_sent else 0)

unfoldable pub record_of : StreamFrame → StreamFrameRecord
record_of f = record {
  stream_id = f.stream_id;
  offset = f.offset;
  len = f.length % u32_mod;
  fin = f.fin;
}

-- The stream after its frame is in the packet.
unfoldable pub charge : Stream → ℕ → Stream
charge s len = record s {
  flow = Flow.on_send s.flow len;
  rate_limit =
      if s.rate_limit.enabled
      then StreamRate.on_send s.rate_limit (len % u32_mod)
      else s.rate_limit;
}

unfoldable pub packed : Packing → ℕ → Stream → StreamFrame → List ℕ → Packing
packed p id s f out = record p {
  conn = record p.conn {
    stream_at = assign p.conn.stream_at id (charge s f.length);
    conn_flow = Flow.on_send p.conn.conn_flow f.length;
  };
  bytes = p.bytes ++ out;
  has_ack_eliciting = true;
  frames = p.frames ++ (record_of f ∷ []);
}

unfoldable pub requeue : Packing → ℕ → Turn
requeue p id =
    if is_idle (p.conn.stream_at id) then Turn.again p else elim (Scheduler.add p.conn.sched id) [
      | none ↦ Turn.fault
      | some sched ↦ Turn.again (record p { conn = record p.conn { sched = sched } })
    ]

-- A frame that could not be encoded goes back to its stream.
unfoldable pub place : Packing → ℕ → Stream → StreamFrame → Option (List ℕ) → Turn
place p id s f none =
    Turn.stop (with_stream p id (Stream.on_loss s f.offset (f.length % u32_mod) f.fin))
place p id s f (some out) = requeue (packed p id s f out) id

unfoldable pub pack_frame : Packing → ℕ → Stream → Option (Stream × StreamFrame) → Turn
pack_frame p id s none = Turn.again (with_stream p id s)
pack_frame p id s (some (s', f)) = place p id s' f (encoded p (write_stream f))

unfoldable pub fill : Packing → ℕ → Stream → ℕ → Turn
fill p id s max_data = pack_frame p id s (Stream.fill_frame s max_data)

unfoldable pub block : Packing → ℕ → Stream → Packing
block p id s = record p {
  conn = record p.conn {
    stream_at = assign p.conn.stream_at id s;
    blocked = assign p.conn.blocked id true;
  };
}

-- The limit on the rate of the stream.
unfoldable pub fill_limited : Packing → ℕ → Stream → ℕ → Turn
fill_limited p id s now_us =
    let rate = StreamRate.update s.rate_limit now_us in
    let updated = record s { rate_limit = rate } in
    let budget = StreamRate.budget rate in
    if s.rate_limit.enabled
    then if budget == 0
      then Turn.again (block p id updated)
      else fill p id updated (smaller (max_data_of p) budget)
    else fill p id s (max_data_of p)

unfoldable pub serve : Packing → ℕ → ℕ → Turn
serve p id now_us =
    let s = p.conn.stream_at id in
    if ltb 0 (unsent s) && not (Flow.can_send p.conn.conn_flow 1)
    then Turn.stop p
    else fill_limited p id s now_us

unfoldable pub with_sched : Packing → Sched → Packing
with_sched p sched = record p { conn = record p.conn { sched = sched } }

unfoldable pub serve_next : Packing → Option (Sched × Ptr) → ℕ → Turn
serve_next p none now_us = Turn.fault
serve_next p (some (sched, none)) now_us = Turn.stop (with_sched p sched)
serve_next p (some (sched, some id)) now_us = serve (with_sched p sched) id now_us

-- One turn of the loop.
unfoldable pub turn : Packing → ℕ → Turn
turn p now_us = serve_next p (Scheduler.next p.conn.stream_at p.conn.sched) now_us

unfoldable pub is_full : Packing → Bool
is_full p = leb p.space (length p.bytes) || leb max_stream_frames_per_pkt (length p.frames)

pub data Packed : Type 0 where
  packed_all : Packing → Packed
  faulted : Packed
  out_of_fuel : Packed

-- The loop, while the congestion window admits data.
unfoldable pub pack_streams : ℕ → Packing → ℕ → Packed
pack_streams zero p now_us = if is_full p then Packed.packed_all p else Packed.out_of_fuel
pack_streams (suc fuel) p now_us = if is_full p then Packed.packed_all p else elim (turn p now_us) [
  | Turn.fault ↦ Packed.faulted
  | Turn.stop p' ↦ Packed.packed_all p'
  | Turn.again p' ↦ pack_streams fuel p' now_us
]

unfoldable pub cc_allows : Conn → Bool
cc_allows conn = ltb conn.ack.bytes_in_flight (Bbr.get_cwnd conn.cc_state)

unfoldable pub pack : ℕ → Packing → ℕ → Packed
pack fuel p now_us =
    let filled = add_control p now_us in
    if cc_allows filled.conn then pack_streams fuel filled now_us else Packed.packed_all filled

unfoldable pub short_header : Conn → ℕ → ShortHeader
short_header conn pn_len = record {
  dcid = conn.dcid;
  spin_bit = false;
  key_phase = false;
  pkt_num = conn.next_pkt_num;
  pkt_num_len = pn_len;
  header_len = 0;
  pkt_num_offset = 0;
}

-- The packet: header and frames, under protection where there are keys.
unfoldable pub seal : Conn → ℕ → List ℕ → List ℕ → Option (List ℕ)
seal conn pn_len header bytes = elim conn.crypto [
  | none ↦ some (header ++ bytes)
  | some p ↦ elim (p.aead_encrypt conn.next_pkt_num header bytes) [
    | none ↦ none
    | some ct ↦ some (p.hp_protect (header ++ ct) (length header - pn_len) pn_len)
  ]
]

unfoldable pub stored_state : PktState → DrPktState
stored_state d = record {
  delivered = d.delivered;
  delivered_time = d.delivered_time;
  first_sent_time = d.first_sent_time;
  is_app_limited = d.is_app_limited;
  app_limited_at = d.app_limited_at;
}

unfoldable pub sent_meta : Packing → ℕ → ℕ → DrPktState → SentPkt
sent_meta p total now_us dr_state = record {
  pkt_num = p.conn.next_pkt_num;
  sent_time = now_us;
  sent_bytes = total % u32_mod;
  ack_eliciting = p.has_ack_eliciting;
  in_flight = p.has_ack_eliciting;
  declared_lost = false;
  frames = p.frames;
  dr_state = dr_state;
}

-- The trackers hear of the packet; `grows` tells whether `realloc` succeeds.
unfoldable pub track : Packing → ℕ → ℕ → Bool → Conn
track p total now_us grows =
    let (rate, dr_state) = DeliveryRate.on_packet_sent p.conn.delivery_rate now_us in
    let ack = on_pkt_sent p.conn.ack (sent_meta p total now_us (stored_state dr_state)) grows in
    record p.conn {
      delivery_rate = rate;
      ack = ack;
      cc_state = Bbr.on_sent p.conn.cc_state ack.bytes_in_flight;
      pacer = Pacer.on_send p.conn.pacer (total % u32_mod);
    }

unfoldable pub count_sent : Conn → ℕ → Conn
count_sent conn total = record conn {
  stats = record conn.stats { bytes_sent = add64 conn.stats.bytes_sent total };
  next_pkt_num = add64 conn.next_pkt_num 1;
}

unfoldable pub after_turn : Conn → Option (Sched × Ptr) → Option Conn
after_turn conn none = none
after_turn conn (some (sched, none)) =
    some (record conn {
      sched = sched;
      delivery_rate = DeliveryRate.set_app_limited conn.delivery_rate;
    })
after_turn conn (some (sched, some id)) = some (record conn { sched = sched })

-- The question whether anything is left takes a turn of the scheduler.
unfoldable pub mark_app_limited : Conn → Option Conn
mark_app_limited conn = after_turn conn (Scheduler.next conn.stream_at conn.sched)

pub data Sent : Type 0 where
  sent : Conn → List ℕ → Sent
  nothing : Conn → Sent
  failed : Conn → Sent
  fault : Sent
  out_of_fuel : Sent

unfoldable pub count_packet : Option Conn → List ℕ → Sent
count_packet none packet = Sent.fault
count_packet (some conn) packet = Sent.sent (count_sent conn (length packet)) packet

unfoldable pub finish : Packing → Option (List ℕ) → ℕ → Bool → Sent
finish p none now_us grows = Sent.failed p.conn
finish p (some packet) now_us grows =
    count_packet (mark_app_limited (track p (length packet) now_us grows)) packet

unfoldable pub seal_behind : Packing → ℕ → Option (List ℕ) → ℕ → Bool → Sent
seal_behind p pn_len none now_us grows = Sent.failed p.conn
seal_behind p pn_len (some header) now_us grows =
    finish p (seal p.conn pn_len header p.bytes) now_us grows

unfoldable pub seal_packing : Packing → ℕ → ℕ → ℕ → Bool → Sent
seal_packing p pn_len max_len now_us grows =
    if length p.bytes == 0
    then Sent.nothing p.conn
    else seal_behind p pn_len
        (encode_short_header (short_header p.conn pn_len) p.conn.dcid.len max_len) now_us grows

unfoldable pub seal_packed : Packed → ℕ → ℕ → ℕ → Bool → Sent
seal_packed (Packed.packed_all p) pn_len max_len now_us grows =
    seal_packing p pn_len max_len now_us grows
seal_packed Packed.faulted pn_len max_len now_us grows = Sent.fault
seal_packed Packed.out_of_fuel pn_len max_len now_us grows = Sent.out_of_fuel

unfoldable pub has_control_frames : Conn → Bool
has_control_frames conn =
    conn.ack.ack_needed
    || (conn.send_conn_close
        || (conn.send_ping
            || (Flow.should_update conn.conn_flow
                || (Migration.has_pending conn.migration || Heartbeat.has_pending conn.heartbeat))))

unfoldable pub tag_size : Option Protection → ℕ
tag_size none = 0
tag_size (some p) = aead_tag_len

-- What is left of `max_len` for frames, behind the header and in front of the tag.
unfoldable pub frame_space : Conn → ℕ → ℕ → ℕ
frame_space conn pn_len max_len =
    smaller (max_len - (1 + conn.dcid.len + pn_len) - tag_size conn.crypto) packet_buf_size

unfoldable pub build_packet : ℕ → Conn → ℕ → ℕ → ℕ → Bool → Sent
build_packet fuel conn pn_len max_len now_us grows =
    let empty : Packing = record {
      conn = conn;
      bytes = [];
      space = frame_space conn pn_len max_len;
      has_ack_eliciting = false;
      frames = [];
    } in
    if ltb max_len (1 + conn.dcid.len + pn_len + 1 + tag_size conn.crypto)
    then Sent.nothing conn
    else seal_packed (pack fuel empty now_us) pn_len max_len now_us grows

-- `nxp_conn_send` behind the handshake.
unfoldable pub send : ℕ → Conn → ℕ → ℕ → Bool → Sent
send fuel conn max_len now_us grows =
    let awake = record conn { last_activity_us = now_us; pacer = Pacer.update conn.pacer now_us } in
    if not (is_state conn.state ConnState.established)
      && not (is_state conn.state ConnState.closing)
    then Sent.nothing conn
    else if not (Pacer.can_send awake.pacer max_datagram_size) && not (has_control_frames awake)
    then Sent.nothing awake
    else build_packet fuel awake (pkt_num_len awake.next_pkt_num awake.ack.largest_recv_pn) max_len
        now_us grows
