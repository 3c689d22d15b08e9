-- ===== src/Packet/Encode.antt =====
-- `nxp_pkt_encode_long_header` and `nxp_pkt_encode_short_header` of src/core/packet.c.
-- Both check the room for the whole header at once and then write without a check. They give the
-- bytes that are written from `buf[0]` on, and `none` for a result of 0.
use nxp.Prelude.{
  ℕ, zero, suc, ◌+◌, ◌-◌, ◌*◌, ◌%◌, List, [], ◌∷◌, ◌++◌, Option, none, some, Bool, ◌||◌, ltb, ◌==◌,
  if◌then◌else◌, length, take,
}
use nxp.Prelude.Bits.{shr, shl}
use nxp.Prelude.Word.{u8_mod}
use nxp.Varint
use nxp.Varint.{varint_len}
use nxp.Frame.Types.{ConnId, max_cid_len}
use nxp.Packet.{PacketType, is_initial, LongHeader, ShortHeader, u32_bytes}
use Prim.Native.Nat.{bit_or}

-- The switch on the packet type.
unfoldable pub type_bits : PacketType → Option ℕ
type_bits PacketType.initial = some 0
type_bits PacketType.handshake = some 1
type_bits PacketType.retry = some 2
type_bits PacketType.zero_rtt = some 3
type_bits PacketType.short = none

-- The packet number, most significant byte first: the loop over its `pkt_num_len` bytes.
unfoldable pub pn_bytes : ℕ → ℕ → List ℕ
pn_bytes zero pkt_num = []
pn_bytes (suc n) pkt_num = (shr pkt_num (n * 8) % u8_mod) ∷ pn_bytes n pkt_num

-- The length byte of a connection id and its bytes.
unfoldable pub cid_bytes : ConnId → List ℕ
cid_bytes cid = cid.len ∷ take cid.len cid.bytes

-- What `nxp_varint_encode` writes; nothing when it returns 0.
unfoldable pub varint_bytes : ℕ → ℕ → List ℕ
varint_bytes value room = elim (Varint.encode value room) [ none ↦ [] | some out ↦ out ]

-- `if (token_len > 0 && token != nullptr) memcpy(...)`
unfoldable pub token_data : ℕ → Option (List ℕ) → List ℕ
token_data token_len none = []
token_data token_len (some bytes) = if ltb 0 token_len then take token_len bytes else []

unfoldable pub token_bytes : LongHeader → ℕ → List ℕ
token_bytes hdr room =
    if is_initial hdr.type
    then varint_bytes hdr.token_len room ++ token_data hdr.token_len hdr.token
    else []

-- `NXP_PKT_FORM_BIT | NXP_PKT_FIXED_BIT | (type_bits << 4) | (pkt_num_len - 1)`
unfoldable pub long_first : ℕ → ℕ → ℕ
long_first bits pkt_num_len =
    bit_or (bit_or (bit_or 0x80 0x40) (shl bits 4)) (pkt_num_len - 1) % u8_mod

-- Up to and with the source connection id.
unfoldable pub long_prefix : ℕ → LongHeader → List ℕ
long_prefix bits hdr =
    long_first bits hdr.pkt_num_len
    ∷ (u32_bytes hdr.version ++ (cid_bytes hdr.dcid ++ cid_bytes hdr.scid))

-- The writes, into a buffer of `buf_len` bytes.
unfoldable pub long_bytes : ℕ → LongHeader → ℕ → List ℕ
long_bytes bits hdr buf_len =
    let prefix = long_prefix bits hdr in
    let token = token_bytes hdr (buf_len - length prefix) in
    let payload = varint_bytes hdr.payload_len (buf_len - length prefix - length token) in
    prefix ++ (token ++ (payload ++ pn_bytes hdr.pkt_num_len hdr.pkt_num))

-- `needed`; the length of the token counts for Initial packets only.
unfoldable pub long_needed : LongHeader → ℕ
long_needed hdr =
    7
    + hdr.dcid.len
    + hdr.scid.len
    + (if is_initial hdr.type then varint_len hdr.token_len + hdr.token_len else 0)
    + (varint_len hdr.payload_len + hdr.pkt_num_len)

-- The early returns, but for the one on an unknown type.
unfoldable pub long_refused : LongHeader → ℕ → Bool
long_refused hdr buf_len =
    (ltb hdr.pkt_num_len 1 || ltb 4 hdr.pkt_num_len)
    || (ltb max_cid_len hdr.dcid.len || ltb max_cid_len hdr.scid.len)
    || (if is_initial hdr.type then varint_len hdr.token_len == 0 else Bool.false)
    || varint_len hdr.payload_len == 0
    || ltb buf_len (long_needed hdr)

unfoldable pub encode_long_header : LongHeader → ℕ → Option (List ℕ)
encode_long_header hdr buf_len = elim (type_bits hdr.type) [
  | none ↦ none
  | some bits ↦ if long_refused hdr buf_len then none else some (long_bytes bits hdr buf_len)
]

unfoldable pub short_first : ShortHeader → ℕ
short_first hdr =
    let spin = if hdr.spin_bit then bit_or 0x40 0x20 else 0x40 in
    let phase = if hdr.key_phase then bit_or spin 0x10 else spin in
    bit_or phase (hdr.pkt_num_len - 1)

unfoldable pub short_bytes : ShortHeader → ℕ → List ℕ
short_bytes hdr dcid_len =
    short_first hdr ∷ (take dcid_len hdr.dcid.bytes ++ pn_bytes hdr.pkt_num_len hdr.pkt_num)

unfoldable pub encode_short_header : ShortHeader → ℕ → ℕ → Option (List ℕ)
encode_short_header hdr dcid_len buf_len =
    if (ltb hdr.pkt_num_len 1 || ltb 4 hdr.pkt_num_len)
      || ltb max_cid_len dcid_len
      || ltb buf_len (1 + dcid_len + hdr.pkt_num_len)
    then none
    else some (short_bytes hdr dcid_len)
