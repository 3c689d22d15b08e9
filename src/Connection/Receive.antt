-- ===== src/Connection/Receive.antt =====
-- A packet that arrives: `nxp_conn_recv` of src/core/connection.c. What the functions of src/crypto do with
-- the keys of a connection is in its field `crypto`, as functions; without keys a packet is plain text. A
-- packet with a long header goes to `recv_handshake_packet`, which is an argument.
use nxp.Prelude.{
  ℕ, ◌+◌, ◌⊎◌, inl, inr, List, [], ◌∷◌, Option, none, some, true, ◌||◌, ltb, if◌then◌else◌, length,
  take, drop,
}
use nxp.Prelude.Word.{add64}
use nxp.Packet.{ShortHeader, is_long_header}
use nxp.Packet.Decode.{HeaderError, decode_short_header}
use nxp.Packet.Number.{decode_pkt_num}
use nxp.Ack.Recv.{on_pkt_recv}
use nxp.Connection.{Conn, Protection, packet_buf_size}
use nxp.Connection.States.{ConnState, is_state}
use nxp.Connection.Frames.{ConnError, Handled, process_frames}

unfoldable pub count_recv : Conn → ℕ → ℕ → Conn
count_recv conn len now_us = record conn {
  last_activity_us = now_us;
  stats = record conn.stats {
    bytes_recv = add64 conn.stats.bytes_recv len;
    packets_recv = add64 conn.stats.packets_recv 1;
  };
}

-- The header without its protection; `none` is the failure of `nxp_hp_unprotect`.
unfoldable pub unprotected : Option Protection → List ℕ → ℕ → Option (List ℕ)
unprotected none buf pn_offset = some buf
unprotected (some p) buf pn_offset = p.hp_unprotect buf pn_offset

-- The payload behind the header; `none` is the failure of `nxp_aead_decrypt`.
unfoldable pub payload_of : Option Protection → ℕ → ℕ → List ℕ → Option (List ℕ)
payload_of none full_pn header_len buf = some (drop header_len buf)
payload_of (some p) full_pn header_len buf =
    p.aead_decrypt full_pn (take header_len buf) (drop header_len buf)

unfoldable pub full_number : Conn → ShortHeader → ℕ
full_number conn hdr = decode_pkt_num conn.ack.largest_recv_pn hdr.pkt_num hdr.pkt_num_len

unfoldable pub process_payload : Conn → Option (List ℕ) → ℕ → Handled
process_payload conn none now_us = Handled.returned conn (some ConnError.crypto_fail)
process_payload conn (some payload) now_us = process_frames (length payload) conn payload now_us

-- The number is recorded before the payload is decrypted.
unfoldable pub recv_numbered : Conn → List ℕ → ShortHeader → ℕ → Handled
recv_numbered conn buf hdr now_us =
    let full_pn = full_number conn hdr in
    process_payload (record conn { ack = on_pkt_recv conn.ack full_pn now_us true })
      (payload_of conn.crypto full_pn hdr.header_len buf) now_us

unfoldable pub recv_headed : Conn → List ℕ → HeaderError ⊎ ShortHeader → ℕ → Handled
recv_headed conn buf (inl e) now_us = Handled.returned conn (some ConnError.invalid_packet)
recv_headed conn buf (inr hdr) now_us = recv_numbered conn buf hdr now_us

unfoldable pub recv_unprotected : Conn → Option (List ℕ) → ℕ → Handled
recv_unprotected conn none now_us = Handled.returned conn (some ConnError.crypto_fail)
recv_unprotected conn (some buf) now_us =
    recv_headed conn buf (decode_short_header buf conn.scid.len) now_us

unfoldable pub recv_short : Conn → List ℕ → ℕ → Handled
recv_short conn bytes now_us =
    if ltb packet_buf_size (length bytes)
    then Handled.returned conn (some ConnError.invalid_packet)
    else recv_unprotected conn (unprotected conn.crypto bytes (1 + conn.scid.len)) now_us

-- `nxp_conn_recv`
unfoldable pub recv : (Conn → List ℕ → ℕ → Handled) → Conn → List ℕ → ℕ → Handled
recv recv_handshake conn [] now_us = Handled.returned conn (some ConnError.invalid_argument)
recv recv_handshake conn (b ∷ bytes) now_us =
    let counted = count_recv conn (length (b ∷ bytes)) now_us in
    if is_state conn.state ConnState.closed || is_state conn.state ConnState.draining
    then Handled.returned conn (some ConnError.connection_closed)
    else if is_long_header b
    then recv_handshake counted (b ∷ bytes) now_us
    else recv_short counted (b ∷ bytes) now_us
