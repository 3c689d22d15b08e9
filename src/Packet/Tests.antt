-- ===== src/Packet/Tests.antt =====
-- Headers and packet numbers on concrete packets.
use nxp.Prelude.{
  ℕ, ◌*◌, ◌%◌, ◌^◌, ◌≡◌, refl, arith, List, [], ◌∷◌, ◌++◌, some, none, true, false, inl, inr,
  replicate,
}
use nxp.Codec.{get_byte}
use nxp.Frame.Types.{ConnId}
use nxp.Packet.{PacketType, LongHeader, ShortHeader, u32_bytes, is_long_header}
use nxp.Packet.Number.{decode_pkt_num, pkt_num_len}
use nxp.Packet.Number.Reconstruct.{decode_pkt_num-pkt_num_len}
use nxp.Varint.{encode, head_byte, varint_len}
use nxp.Packet.Encode.{
  encode_long_header, encode_short_header, short_bytes, short_first, pn_bytes, type_bits,
  long_refused, long_needed, long_bytes, long_prefix, long_first, cid_bytes, token_bytes,
  varint_bytes, token_data,
}
use nxp.Packet.Decode.{HeaderError, decode_long_header, decode_short_header, finish}
use nxp.Packet.RoundTrip.Short.{received_short, decode_short_header-encode_short_header}
use nxp.Packet.RoundTrip.Long.{received_long, IsNumbered}
use nxp.Packet.RoundTrip.Whole.{decode_long_header-encode_long_header}

abbrev cid : ConnId
cid = record { bytes = 7 ∷ 8 ∷ 9 ∷ replicate 17 0; len = 3 }

abbrev short_hdr : ShortHeader
short_hdr = record {
  dcid = cid;
  spin_bit = true;
  key_phase = false;
  pkt_num = 0x1234;
  pkt_num_len = 2;
  header_len = 0;
  pkt_num_offset = 0;
}

abbrev short_out : List ℕ
short_out = 0x61 ∷ 7 ∷ 8 ∷ 9 ∷ 0x12 ∷ 0x34 ∷ []

short_encoded : encode_short_header short_hdr 3 64 ≡ some short_out
unfolding encode_short_header short_bytes short_first pn_bytes
short_encoded = refl

decode_short_header-encode_short_header_example :
    decode_short_header (short_out ++ (1 ∷ 2 ∷ [])) 3 ≡ inr (received_short short_hdr 3)
decode_short_header-encode_short_header_example =
    decode_short_header-encode_short_header short_hdr 3 64 short_out (1 ∷ 2 ∷ []) (omega arith)
      short_encoded

abbrev long_hdr : LongHeader
long_hdr = record {
  type = PacketType.initial;
  version = 1;
  dcid = cid;
  scid = record { bytes = replicate 20 0; len = 0 };
  token = some (5 ∷ 6 ∷ []);
  token_len = 2;
  payload_len = 1200;
  pkt_num = 0;
  pkt_num_len = 1;
  header_len = 0;
  pkt_num_offset = 0;
}

abbrev long_out : List ℕ
long_out = 0xc0 ∷ 0 ∷ 0 ∷ 0 ∷ 1 ∷ 3 ∷ 7 ∷ 8 ∷ 9 ∷ 0 ∷ 2 ∷ 5 ∷ 6 ∷ 0x44 ∷ 0xb0 ∷ 0 ∷ []

long_encoded : encode_long_header long_hdr 64 ≡ some long_out
unfolding encode_long_header type_bits long_refused varint_len long_needed long_bytes long_prefix
    long_first u32_bytes cid_bytes token_bytes varint_bytes encode token_data head_byte pn_bytes
long_encoded = refl

long_hdr-IsNumbered : IsNumbered long_hdr
long_hdr-IsNumbered =
    (refl, omega arith, omega arith, omega arith, (omega arith, (refl, omega arith)), omega arith)

decode_long_header-encode_long_header_example :
    decode_long_header (long_out ++ (1 ∷ [])) ≡ inr (received_long long_hdr)
decode_long_header-encode_long_header_example =
    decode_long_header-encode_long_header long_hdr 64 long_out (1 ∷ []) long_hdr-IsNumbered
      long_encoded

decode_pkt_num-pkt_num_len_example :
    decode_pkt_num 0xabe8b3
      (0xac5c02 % 2 ^ (pkt_num_len 0xac5c02 0xabe8b3 * 8))
      (pkt_num_len 0xac5c02 0xabe8b3)
    ≡ 0xac5c02
decode_pkt_num-pkt_num_len_example =
    decode_pkt_num-pkt_num_len 0xabe8b3 0xabe8b3 0xac5c02 (omega arith) (omega arith) (omega arith)
      (omega arith) (omega arith) (omega arith)

-- A length of a token without the token: the bytes that follow are taken for it.
token_missing :
    encode_long_header (record long_hdr { token = none }) 64
    ≡ some (0xc0 ∷ 0 ∷ 0 ∷ 0 ∷ 1 ∷ 3 ∷ 7 ∷ 8 ∷ 9 ∷ 0 ∷ 2 ∷ 0x44 ∷ 0xb0 ∷ 0 ∷ [])
unfolding encode_long_header type_bits long_refused varint_len long_needed long_bytes long_prefix
    long_first u32_bytes cid_bytes token_bytes varint_bytes encode token_data head_byte pn_bytes
token_missing = refl

-- The short header's own length byte is not on the wire: the receiver must know it.
long_for_short : decode_short_header long_out 3 ≡ inl HeaderError.invalid_packet
unfolding decode_short_header finish get_byte is_long_header
long_for_short = refl
