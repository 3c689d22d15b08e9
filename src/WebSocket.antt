-- ===== src/WebSocket.antt =====
-- WebSocket frames: src/transport/websocket/ws_frame.c and ws_frame.h.
-- The encoder stores the header before it knows how large the buffer is; it gives the bytes that it
-- stores from `buf[0]` on. The decoder unmasks inside the caller's buffer: the payload here is what
-- stands there afterwards.
pub mod RoundTrip
mod Tests
use nxp.Prelude.{
  ℕ, zero, suc, ◌+◌, ◌-◌, ◌%◌, List, [], ◌∷◌, ◌++◌, Option, none, some, Bool, not, ◌&&◌, ltb, leb,
  ◌==◌, if◌then◌else◌, length, take, drop, get_or,
}
use nxp.Prelude.Bits.{shr, shl}
use nxp.Prelude.Word.{u8_mod, add64}
use nxp.Codec.{Parser, ◌>>=◌, pure, get_byte, get_bytes}
use nxp.Packet.Encode.{pn_bytes}
use nxp.Packet.Decode.{pn_value, position}
use Prim.Native.Nat.{bit_and, bit_or, bit_xor}

-- `ws_frame`; `payload` is a pointer, null for none.
pub record WsFrame : Type 0 where
  pub opcode : ℕ
  pub fin : Bool
  pub masked : Bool
  pub mask_key : List ℕ
  pub payload_len : ℕ
  pub payload : Option (List ℕ)
  pub frame_total : ℕ

-- `payload[i] ^= mask_key[i % 4]`, from index `i` on.
unfoldable pub apply_mask : ℕ → List ℕ → List ℕ → List ℕ
apply_mask i key [] = []
apply_mask i key (b ∷ bytes) = bit_xor b (get_or key (i % 4) 0) ∷ apply_mask (suc i) key bytes

unfoldable pub mask_if : Bool → List ℕ → List ℕ → List ℕ
mask_if masked key bytes = if masked then apply_mask 0 key bytes else bytes

unfoldable pub first_byte : WsFrame → ℕ
first_byte f = bit_or (if f.fin then 0x80 else 0x00) (bit_and f.opcode 0x0f)

-- The second byte and the extended length; the loop over 8 bytes is `pn_bytes`.
unfoldable pub length_bytes : Bool → ℕ → List ℕ
length_bytes masked p_len =
    let mask_bit = if masked then 0x80 else 0x00 in
    if leb p_len 125
    then bit_or mask_bit (p_len % u8_mod) ∷ []
    else if leb p_len 65535
    then bit_or mask_bit 126 ∷ (shr p_len 8 % u8_mod) ∷ (p_len % u8_mod) ∷ []
    else bit_or mask_bit 127 ∷ pn_bytes 8 p_len

unfoldable pub header : WsFrame → List ℕ
header f =
    first_byte f
    ∷ (length_bytes f.masked f.payload_len ++ (if f.masked then take 4 f.mask_key else []))

unfoldable pub encode : WsFrame → ℕ → Option (List ℕ)
encode f buf_cap = elim f.payload [
  | none ↦ some (header f)
  | some bytes ↦
      if not (ltb 0 f.payload_len)
      then some (header f)
      else if ltb buf_cap (add64 (length (header f)) f.payload_len)
      then none
      else some (header f ++ mask_if f.masked f.mask_key (take f.payload_len bytes))
]

unfoldable pub get_extended : Parser ℕ
get_extended = do bytes ← get_bytes 8; pure (pn_value 0 bytes)

unfoldable pub get_u16 : Parser ℕ
get_u16 = do high ← get_byte; low ← get_byte; pure (bit_or (shl high 8) low)

unfoldable pub get_length : ℕ → Parser ℕ
get_length len = if len == 126 then get_u16 else if len == 127 then get_extended else pure len

-- Without a mask the key keeps what the caller's structure holds.
unfoldable pub get_key : Bool → List ℕ → Parser (List ℕ)
get_key masked old = if masked then get_bytes 4 else pure old

-- `if (buf_len < pos + p_len) return 0;` and the payload, as far as it lies in the buffer.
unfoldable pub get_payload : ℕ → ℕ → ℕ → Parser (List ℕ)
get_payload buf_len pos p_len l =
    if ltb buf_len (add64 pos p_len) then none else some (take p_len l, drop p_len l)

-- Behind the first two bytes.
unfoldable pub read_rest : ℕ → WsFrame → ℕ → ℕ → Parser WsFrame
read_rest buf_len f b0 b1 = do
  p_len ← get_length (bit_and b1 0x7f)
  key ← get_key (not (bit_and b1 0x80 == 0)) f.mask_key
  pos ← position buf_len
  bytes ← get_payload buf_len pos p_len
  pure (record {
    opcode = bit_and b0 0x0f;
    fin = not (bit_and b0 0x80 == 0);
    masked = not (bit_and b1 0x80 == 0);
    mask_key = key;
    payload_len = p_len;
    payload = some (mask_if (not (bit_and b1 0x80 == 0)) key bytes);
    frame_total = add64 pos p_len;
  })

unfoldable pub read_frame : ℕ → WsFrame → Parser WsFrame
read_frame buf_len f = do b0 ← get_byte; b1 ← get_byte; read_rest buf_len f b0 b1

-- Into the caller's structure `f`; `none` is the result 0.
unfoldable pub decode : WsFrame → List ℕ → Option WsFrame
decode f buf =
    if ltb (length buf) 2
    then none
    else elim (read_frame (length buf) f buf) [ none ↦ none | some (g, rest) ↦ some g ]
