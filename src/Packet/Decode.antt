-- ===== src/Packet/Decode.antt =====
-- `nxp_pkt_decode_long_header` and `nxp_pkt_decode_short_header` of src/core/packet.c.
use nxp.Prelude.{
  ℕ, ◌+◌, ◌-◌, List, [], ◌∷◌, Option, none, some, Bool, not, ltb, ◌==◌, if◌then◌else◌, length, ◌⊎◌,
  inl, inr,
}
use nxp.Prelude.Bits.{shr, shl}
use nxp.Codec.{Parser, ◌>>=◌, pure, reject_if, get_varint, get_byte, get_bytes, get_data}
use nxp.Frame.Types.{ConnId, max_cid_len}
use nxp.Frame.Decode.{conn_id}
use nxp.Packet.{
  PacketType, is_initial, is_retry, LongHeader, ShortHeader, u32_be, is_long_header, max_token_len,
  max_payload_len,
}
use Prim.Native.Nat.{bit_and, bit_or}

pub data HeaderError : Type 0 where
  invalid_argument : HeaderError
  invalid_packet : HeaderError

-- `pos`, in a buffer of `buf_len` bytes.
unfoldable pub position : ℕ → Parser ℕ
position buf_len l = some (buf_len - length l, l)

unfoldable pub get_u32 : Parser ℕ
get_u32 (b0 ∷ b1 ∷ b2 ∷ b3 ∷ rest) = some (u32_be b0 b1 b2 b3, rest)
get_u32 _ = none

-- A length byte and as many bytes, at most 20.
unfoldable pub get_cid : Parser ConnId
get_cid = do
  len ← get_byte
  reject_if (ltb max_cid_len len) (do bytes ← get_bytes len; pure (conn_id len bytes))

-- `pkt_num = (pkt_num << 8) | buf[pos + i]` for each byte; four bytes at most, so nothing is cut off.
unfoldable pub pn_value : ℕ → List ℕ → ℕ
pn_value pkt_num [] = pkt_num
pn_value pkt_num (b ∷ bytes) = pn_value (bit_or (shl pkt_num 8) b) bytes

unfoldable pub get_pkt_num : ℕ → Parser ℕ
get_pkt_num pkt_num_len = do bytes ← get_bytes pkt_num_len; pure (pn_value 0 bytes)

pub record Token : Type 0 where
  pub token_len : ℕ
  pub token : Option (List ℕ)

-- Initial packets only.
unfoldable pub get_token : Parser Token
get_token = do
  len ← get_varint
  reject_if (ltb max_token_len len)
      (do token ← get_data len; pure (record { token_len = len; token = token }))

unfoldable pub get_token_if : Bool → Parser Token
get_token_if present = if present then get_token else pure (record { token_len = 0; token = none })

unfoldable pub long_type : ℕ → PacketType
long_type first =
    let bits = shr (bit_and first 0x30) 4 in
    if bits == 0
    then PacketType.initial
    else if bits == 1
    then PacketType.handshake
    else if bits == 2
    then PacketType.retry
    else PacketType.zero_rtt

-- The end of a Retry packet: what is left is retry data.
unfoldable pub read_retry : ℕ → ℕ → ConnId → ConnId → Token → Parser LongHeader
read_retry buf_len version dcid scid t = do
  pos ← position buf_len
  pure (record {
    type = PacketType.retry;
    version = version;
    dcid = dcid;
    scid = scid;
    token = t.token;
    token_len = t.token_len;
    payload_len = buf_len - pos;
    pkt_num = 0;
    pkt_num_len = 0;
    header_len = pos;
    pkt_num_offset = 0;
  })

-- The end of any other packet.
unfoldable pub read_numbered : ℕ → ℕ → ℕ → ConnId → ConnId → Token → Parser LongHeader
read_numbered buf_len first version dcid scid t =
    let pkt_num_len = bit_and first 0x03 + 1 in
    do
      payload_len ← get_varint
      reject_if (ltb max_payload_len payload_len) (do
        offset ← position buf_len
        pkt_num ← get_pkt_num pkt_num_len
        pos ← position buf_len
        pure (record {
          type = long_type first;
          version = version;
          dcid = dcid;
          scid = scid;
          token = t.token;
          token_len = t.token_len;
          payload_len = payload_len;
          pkt_num = pkt_num;
          pkt_num_len = pkt_num_len;
          header_len = pos;
          pkt_num_offset = offset;
        }))

-- Behind the first byte.
unfoldable pub read_long : ℕ → ℕ → Parser LongHeader
read_long buf_len first = do
  version ← get_u32
  dcid ← get_cid
  scid ← get_cid
  t ← get_token_if (is_initial (long_type first))
  if is_retry (long_type first)
      then read_retry buf_len version dcid scid t
      else read_numbered buf_len first version dcid scid t

unfoldable pub read_short : ℕ → ℕ → ℕ → Parser ShortHeader
read_short buf_len dcid_len first =
    let pkt_num_len = bit_and first 0x03 + 1 in
    do
      bytes ← get_bytes dcid_len
      offset ← position buf_len
      pkt_num ← get_pkt_num pkt_num_len
      pos ← position buf_len
      pure (record {
        dcid = conn_id dcid_len bytes;
        spin_bit = not (bit_and first 0x20 == 0);
        key_phase = not (bit_and first 0x10 == 0);
        pkt_num = pkt_num;
        pkt_num_len = pkt_num_len;
        header_len = pos;
        pkt_num_offset = offset;
      })

-- A failed check inside the header is `NXP_ERR_INVALID_PACKET`.
unfoldable pub finish {ℓ} : {A : Type ℓ} → Option (A × List ℕ) → HeaderError ⊎ A
finish none = inl HeaderError.invalid_packet
finish (some (hdr, rest)) = inr hdr

unfoldable pub decode_long_header : List ℕ → HeaderError ⊎ LongHeader
decode_long_header buf =
    if ltb (length buf) 7
    then inl HeaderError.invalid_packet
    else finish (
        (do
          first ← get_byte
          reject_if (not (is_long_header first))
              (reject_if (bit_and first 0x40 == 0) (read_long (length buf) first)))
          buf)

unfoldable pub decode_short_header : List ℕ → ℕ → HeaderError ⊎ ShortHeader
decode_short_header buf dcid_len =
    if ltb max_cid_len dcid_len
    then inl HeaderError.invalid_argument
    else if ltb (length buf) (1 + dcid_len + 1)
    then inl HeaderError.invalid_packet
    else finish (
        (do
          first ← get_byte
          reject_if (is_long_header first)
              (reject_if (bit_and first 0x40 == 0) (read_short (length buf) dcid_len first)))
          buf)
