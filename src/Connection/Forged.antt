-- ===== src/Connection/Forged.antt =====
-- A packet that src/crypto rejects, in `nxp_conn_recv`.
use nxp.Prelude.{ℕ, List, true}
use nxp.Packet.{ShortHeader}
use nxp.Ack.Recv.{on_pkt_recv}
use nxp.Connection.{Conn, Protection}
use nxp.Connection.Receive.{full_number}

module _ (conn : Conn) (p : Protection) (bytes buf : List ℕ) (hdr : ShortHeader) (now_us : ℕ) where
  abbrev pub recorded : Conn
  recorded = record conn { ack = on_pkt_recv conn.ack (full_number conn hdr) now_us true }
