-- ===== src/Connection/Keeps/Whole.antt =====
-- A packet that arrives and a packet that is sent, as a whole.
use nxp.Prelude.{
  ℕ, ◌+◌, ◌<◌, ◌^◌, ◌⊎◌, inl, inr, refl, sym, subst, arith, List, [], ◌∷◌, Option, none, some, Bool,
  true, false, not, ◌&&◌, ◌==◌, ltb, if-elim, length, length-drop, drop, take, All, zero, suc,
}
use nxp.Prelude.Word.{IsByte}
use nxp.Packet.{ShortHeader}
use nxp.Packet.Decode.{HeaderError, decode_short_header}
use nxp.Packet.Encode.{encode_short_header}
use nxp.Packet.Number.{pkt_num_len}
use nxp.Ack.Recv.{on_pkt_recv}
use nxp.Pacer
use nxp.Bbr.{max_datagram_size}
use nxp.Scheduler.{Sched, Ptr}
use nxp.Scheduler.Queue.{IsQueue, take_turn}
use nxp.Scheduler.Turns.{next-take_turn}
use nxp.Connection.{Conn, Protection, packet_buf_size}
use nxp.Connection.States.{ConnState, is_state}
use nxp.Connection.Receive.{
  unprotected, payload_of, full_number, process_payload, recv_numbered, recv_headed,
  recv_unprotected, recv_short,
}
use nxp.Connection.Send.{Packing, add_control}
use nxp.Connection.Send.Streams.{
  Packed, Sent, pack_streams, pack, cc_allows, short_header, seal, track, count_sent, after_turn,
  mark_app_limited, count_packet, finish, seal_behind, seal_packing, seal_packed,
  has_control_frames, tag_size, frame_space, build_packet, send,
}
use nxp.Connection.Keeps.{Keeps, Keeps-same, Keeps-self, Keeps-trans, HasQueue, Follows}
use nxp.Connection.Keeps.Frames.{IsHandled, IsHandled-trans, process_frames-IsHandled}
use nxp.Connection.Keeps.Sends.{IsEnd, IsEnd-trans, pack_streams-IsEnd, add_control-Stays}

abbrev pub AreBytes : List ℕ → Type 0
AreBytes bytes = All IsByte bytes × (length bytes < 2 ^ 63)

abbrev GivesBytes : Option (List ℕ) → Type 0
GivesBytes none = Unit
GivesBytes (some bytes) = AreBytes bytes

-- Bytes come out of the functions of src/crypto where bytes go in.
abbrev pub IsBytewise : Option Protection → Type 0
IsBytewise none = Unit
IsBytewise (some p) =
    ((buf : List ℕ) (n : ℕ) → AreBytes buf → GivesBytes (p.hp_unprotect buf n))
    × ((n : ℕ) (header ct : List ℕ) → AreBytes ct → GivesBytes (p.aead_decrypt n header ct))

All-drop : (n : ℕ) (l : List ℕ) → All IsByte l → All IsByte (drop n l)
All-drop zero l h = h
All-drop (suc n) [] h = h
All-drop (suc n) (x ∷ l) h = All-drop n l h.1

drop-AreBytes : (n : ℕ) (l : List ℕ) → AreBytes l → AreBytes (drop n l)
drop-AreBytes n l h = (All-drop n l h.0, omega (arith, length-drop n l, h.1))

unprotected-GivesBytes :
    (c : Option Protection) (buf : List ℕ) (n : ℕ)
    → IsBytewise c
    → AreBytes buf
    → GivesBytes (unprotected c buf n)
unfolding unprotected
unprotected-GivesBytes none buf n h b = b
unprotected-GivesBytes (some p) buf n h b = h.0 buf n b

payload_of-GivesBytes :
    (c : Option Protection) (n k : ℕ) (buf : List ℕ)
    → IsBytewise c
    → AreBytes buf
    → GivesBytes (payload_of c n k buf)
unfolding payload_of
payload_of-GivesBytes none n k buf h b = drop-AreBytes k buf b
payload_of-GivesBytes (some p) n k buf h b = h.1 n (take k buf) (drop k buf) (drop-AreBytes k buf b)

process_payload-IsHandled :
    (conn : Conn) (r : Option (List ℕ)) (now_us : ℕ)
    → HasQueue conn
    → GivesBytes r
    → IsHandled conn (process_payload conn r now_us)
unfolding process_payload
process_payload-IsHandled conn none now_us q g = (Keeps-self conn, q)
process_payload-IsHandled conn (some payload) now_us q g =
    process_frames-IsHandled now_us (length payload) conn payload g.0 g.1 (omega arith) q

recv_numbered-IsHandled :
    (conn : Conn) (buf : List ℕ) (hdr : ShortHeader) (now_us : ℕ)
    → IsBytewise conn.crypto
    → AreBytes buf
    → HasQueue conn
    → IsHandled conn (recv_numbered conn buf hdr now_us)
unfolding recv_numbered
recv_numbered-IsHandled conn buf hdr now_us h b q =
    let full_pn = full_number conn hdr in
    let recorded = record conn { ack = on_pkt_recv conn.ack full_pn now_us true } in
    let payload = payload_of conn.crypto full_pn hdr.header_len buf in
    IsHandled-trans (process_payload recorded payload now_us)
      (Keeps-same conn recorded refl refl refl refl refl refl)
      (process_payload-IsHandled recorded payload now_us q
        (payload_of-GivesBytes conn.crypto full_pn hdr.header_len buf h b))

recv_headed-IsHandled :
    (conn : Conn) (buf : List ℕ) (r : HeaderError ⊎ ShortHeader) (now_us : ℕ)
    → IsBytewise conn.crypto
    → AreBytes buf
    → HasQueue conn
    → IsHandled conn (recv_headed conn buf r now_us)
unfolding recv_headed
recv_headed-IsHandled conn buf (inl e) now_us h b q = (Keeps-self conn, q)
recv_headed-IsHandled conn buf (inr hdr) now_us h b q =
    recv_numbered-IsHandled conn buf hdr now_us h b q

recv_unprotected-IsHandled :
    (conn : Conn) (r : Option (List ℕ)) (now_us : ℕ)
    → IsBytewise conn.crypto
    → GivesBytes r
    → HasQueue conn
    → IsHandled conn (recv_unprotected conn r now_us)
unfolding recv_unprotected
recv_unprotected-IsHandled conn none now_us h b q = (Keeps-self conn, q)
recv_unprotected-IsHandled conn (some buf) now_us h b q =
    recv_headed-IsHandled conn buf (decode_short_header buf conn.scid.len) now_us h b q

-- A packet with a short header never leaves the connection out of order, whatever is in it.
pub recv_short-IsHandled :
    (conn : Conn) (bytes : List ℕ) (now_us : ℕ)
    → IsBytewise conn.crypto
    → AreBytes bytes
    → HasQueue conn
    → IsHandled conn (recv_short conn bytes now_us)
unfolding recv_short
recv_short-IsHandled conn bytes now_us h b q =
    if-elim (IsHandled conn) (ltb packet_buf_size (length bytes)) _ _ (λ long. (Keeps-self conn, q))
      (λ short.
        recv_unprotected-IsHandled conn (unprotected conn.crypto bytes (1 + conn.scid.len)) now_us h
          (unprotected-GivesBytes conn.crypto bytes (1 + conn.scid.len) h b) q)

-- What sending leaves: it has followed no null pointer.
abbrev pub IsSent : Conn → Sent → Type 0
IsSent a (Sent.sent b packet) = Follows a b
IsSent a (Sent.nothing b) = Follows a b
IsSent a (Sent.failed b) = Follows a b
IsSent a Sent.fault = ⊥
IsSent a Sent.out_of_fuel = Unit

IsSent-trans : {a b : Conn} (r : Sent) → Keeps a b → IsSent b r → IsSent a r
IsSent-trans (Sent.sent c packet) h k = (Keeps-trans h k.0, k.1)
IsSent-trans (Sent.nothing c) h k = (Keeps-trans h k.0, k.1)
IsSent-trans (Sent.failed c) h k = (Keeps-trans h k.0, k.1)
IsSent-trans Sent.fault h k = k
IsSent-trans Sent.out_of_fuel h k = tt

module _ (a : Conn) (packet : List ℕ) where
  count_turn :
      (c : Conn) (sched : Sched) (r : Ptr) (ys : List ℕ)
      → Keeps a c
      → IsQueue sched ys
      → IsSent a (count_packet (after_turn c (some (sched, r))) packet)
  unfolding count_packet after_turn count_sent
  count_turn c sched none ys k q =
      (Keeps-trans k (Keeps-same c _ refl refl refl refl refl refl), (ys, q))
  count_turn c sched (some id) ys k q =
      (Keeps-trans k (Keeps-same c _ refl refl refl refl refl refl), (ys, q))

  count_packet-IsSent :
      (c : Conn) → Keeps a c → HasQueue c → IsSent a (count_packet (mark_app_limited c) packet)
  unfolding mark_app_limited
  count_packet-IsSent c k q =
      let (sched, e, q') = next-take_turn c.stream_at c.sched q.0 q.1 in
      subst (λ r. IsSent a (count_packet (after_turn c r) packet)) (sym e)
        (count_turn c sched (take_turn c.stream_at q.0).1 _ k q')

finish-IsSent :
    (p : Packing) (r : Option (List ℕ)) (now_us : ℕ) (grows : Bool)
    → HasQueue p.conn
    → IsSent p.conn (finish p r now_us grows)
unfolding finish track
finish-IsSent p none now_us grows q = (Keeps-self p.conn, q)
finish-IsSent p (some packet) now_us grows q =
    count_packet-IsSent p.conn packet (track p (length packet) now_us grows)
      (Keeps-same p.conn _ refl refl refl refl refl refl) q

seal_behind-IsSent :
    (p : Packing) (pn_len : ℕ) (r : Option (List ℕ)) (now_us : ℕ) (grows : Bool)
    → HasQueue p.conn
    → IsSent p.conn (seal_behind p pn_len r now_us grows)
unfolding seal_behind
seal_behind-IsSent p pn_len none now_us grows q = (Keeps-self p.conn, q)
seal_behind-IsSent p pn_len (some header) now_us grows q =
    finish-IsSent p (seal p.conn pn_len header p.bytes) now_us grows q

seal_packed-IsSent :
    (p : Packing) (r : Packed) (pn_len max_len now_us : ℕ) (grows : Bool)
    → IsEnd p r
    → IsSent p.conn (seal_packed r pn_len max_len now_us grows)
unfolding seal_packed seal_packing
seal_packed-IsSent p (Packed.packed_all p') pn_len max_len now_us grows h =
    if-elim (IsSent p.conn) (length p'.bytes == 0) _ _ (λ empty. h)
      (λ full. IsSent-trans _ h.0 (
        seal_behind-IsSent p' pn_len
          (encode_short_header (short_header p'.conn pn_len) p'.conn.dcid.len max_len) now_us grows
          h.1))
seal_packed-IsSent p Packed.faulted pn_len max_len now_us grows h = h
seal_packed-IsSent p Packed.out_of_fuel pn_len max_len now_us grows h = tt

pack-IsEnd : (fuel : ℕ) (p : Packing) (now_us : ℕ) → HasQueue p.conn → IsEnd p (pack fuel p now_us)
unfolding pack
pack-IsEnd fuel p now_us q =
    let filled = add_control p now_us in
    let first = add_control-Stays p now_us q in
    if-elim (IsEnd p) (cc_allows filled.conn) _ _
      (λ allowed.
        IsEnd-trans p filled (pack_streams fuel filled now_us) first.0
          (pack_streams-IsEnd now_us fuel filled first.1))
      (λ refused. first)

-- Sending never leaves the connection out of order.
pub send-IsSent :
    (fuel : ℕ) (conn : Conn) (max_len now_us : ℕ) (grows : Bool)
    → HasQueue conn
    → IsSent conn (send fuel conn max_len now_us grows)
unfolding send build_packet
send-IsSent fuel conn max_len now_us grows q =
    let awake = record conn { last_activity_us = now_us; pacer = Pacer.update conn.pacer now_us } in
    let same : Keeps conn awake = Keeps-same conn awake refl refl refl refl refl refl in
    let pn_len = pkt_num_len awake.next_pkt_num awake.ack.largest_recv_pn in
    let empty : Packing = record {
      conn = awake;
      bytes = [];
      space = frame_space awake pn_len max_len;
      has_ack_eliciting = false;
      frames = [];
    } in
    if-elim (IsSent conn)
      (not (is_state conn.state ConnState.established)
        && not (is_state conn.state ConnState.closing))
      _ _ (λ idle. (Keeps-self conn, q))
      (λ live.
        if-elim (IsSent conn)
          (not (Pacer.can_send awake.pacer max_datagram_size) && not (has_control_frames awake)) _ _
          (λ paced. (same, q))
          (λ clear.
            if-elim (IsSent conn)
              (ltb max_len (1 + awake.dcid.len + pn_len + 1 + tag_size awake.crypto)) _ _
              (λ small. (same, q))
              (λ room. IsSent-trans _ same (
                seal_packed-IsSent empty (pack fuel empty now_us) pn_len max_len now_us grows
                  (pack-IsEnd fuel empty now_us q)))))
