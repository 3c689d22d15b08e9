-- ===== src/Packet/RoundTrip/Long.antt =====
-- The round trip of the long header.
pub mod Token
use nxp.Prelude.{
  ℕ, zero, suc, ◌+◌, ◌-◌, ◌*◌, ◌%◌, ◌^◌, ◌≤◌, ◌<◌, ◌≡◌, ◌∙◌, refl, sym, ap, subst, arith, List, [],
  ◌∷◌, ◌++◌, append_assoc, some, none, Option, Bool, true, false, not, ◌==◌, ◌||◌, ltb, length,
  length-append, length-take, take, inr, if◌then◌else◌,
}
use nxp.Codec.{◌>>=◌, reject_if, get_byte, pure}
use nxp.Codec.Laws.{Carries}
use nxp.Varint.{varint_max, varint_len}
use nxp.Frame.Types.{ConnId, max_cid_len}
use nxp.Packet.{
  PacketType, LongHeader, is_long_header, is_initial, is_retry, max_token_len, max_payload_len,
  u32_bytes,
}
use nxp.Packet.Encode.{
  type_bits, long_first, long_prefix, long_bytes, long_needed, long_refused, encode_long_header,
  token_bytes, varint_bytes, pn_bytes, cid_bytes,
}
use nxp.Packet.Decode.{
  read_long, read_numbered, get_token_if, long_type, decode_long_header, finish,
}
use nxp.Packet.RoundTrip.Spells.{
  Spells, pure-Spells, >>=-Spells, position_eq-Spells, get_byte-Spells, reject_if-Spells, within,
}
use nxp.Packet.RoundTrip.Fields.{
  IsCid, received, get_u32-Spells, get_cid-Spells, get_varint-Spells, get_pkt_num-Spells,
  length-pn_bytes, length-cid_bytes, varint_bytes-some, unit-right,
}
use nxp.Packet.RoundTrip.Long.Token.{
  received_token, HasToken, token_extent, get_token_if-Spells, length-token_bytes,
}
use Prim.Native.Nat.{bit_and}

-- What the decoder sees in the first byte.
abbrev pub Shows : ℕ → PacketType → ℕ → Type 0
Shows byte type n =
    (is_long_header byte ≡ true)
    × ((bit_and byte 0x40 == 0) ≡ false)
    × (long_type byte ≡ type)
    × (bit_and byte 0x03 + 1 ≡ n)

pub first-Shows :
    (type : PacketType) (bits n : ℕ)
    → 1 ≤ n
    → n ≤ 4
    → type_bits type ≡ some bits
    → Shows (long_first bits n) type n
unfolding is_long_header long_first long_type type_bits
first-Shows type bits n h k e = by_type type bits e n h k
  where
    of : (bits : ℕ) (type : PacketType) → Type 0
    of bits type = (n : ℕ) → 1 ≤ n → n ≤ 4 → Shows (long_first bits n) type n

    initial_first : of 0 PacketType.initial
    initial_first zero h k = absurd (omega arith)
    initial_first (suc zero) h k = (refl, refl, refl, refl)
    initial_first (suc (suc zero)) h k = (refl, refl, refl, refl)
    initial_first (suc (suc (suc zero))) h k = (refl, refl, refl, refl)
    initial_first (suc (suc (suc (suc zero)))) h k = (refl, refl, refl, refl)
    initial_first (suc (suc (suc (suc (suc n))))) h k = absurd (omega arith)

    handshake_first : of 1 PacketType.handshake
    handshake_first zero h k = absurd (omega arith)
    handshake_first (suc zero) h k = (refl, refl, refl, refl)
    handshake_first (suc (suc zero)) h k = (refl, refl, refl, refl)
    handshake_first (suc (suc (suc zero))) h k = (refl, refl, refl, refl)
    handshake_first (suc (suc (suc (suc zero)))) h k = (refl, refl, refl, refl)
    handshake_first (suc (suc (suc (suc (suc n))))) h k = absurd (omega arith)

    retry_first : of 2 PacketType.retry
    retry_first zero h k = absurd (omega arith)
    retry_first (suc zero) h k = (refl, refl, refl, refl)
    retry_first (suc (suc zero)) h k = (refl, refl, refl, refl)
    retry_first (suc (suc (suc zero))) h k = (refl, refl, refl, refl)
    retry_first (suc (suc (suc (suc zero)))) h k = (refl, refl, refl, refl)
    retry_first (suc (suc (suc (suc (suc n))))) h k = absurd (omega arith)

    zero_rtt_first : of 3 PacketType.zero_rtt
    zero_rtt_first zero h k = absurd (omega arith)
    zero_rtt_first (suc zero) h k = (refl, refl, refl, refl)
    zero_rtt_first (suc (suc zero)) h k = (refl, refl, refl, refl)
    zero_rtt_first (suc (suc (suc zero))) h k = (refl, refl, refl, refl)
    zero_rtt_first (suc (suc (suc (suc zero)))) h k = (refl, refl, refl, refl)
    zero_rtt_first (suc (suc (suc (suc (suc n))))) h k = absurd (omega arith)

    same : (k : ℕ) {bits : ℕ} → ◌≡◌ {A = Option ℕ} (some k) (some bits) → k ≡ bits
    same k e = ground (arith, e)

    by_type : (type : PacketType) (bits : ℕ) → type_bits type ≡ some bits → of bits type
    by_type PacketType.initial bits e =
        subst (λ x. of x PacketType.initial) (same 0 e) initial_first
    by_type PacketType.handshake bits e =
        subst (λ x. of x PacketType.handshake) (same 1 e) handshake_first
    by_type PacketType.retry bits e = subst (λ x. of x PacketType.retry) (same 2 e) retry_first
    by_type PacketType.zero_rtt bits e =
        subst (λ x. of x PacketType.zero_rtt) (same 3 e) zero_rtt_first
    by_type PacketType.short bits e = absurd (cc e)

-- Where the packet number starts.
abbrev pub offset : LongHeader → ℕ
offset hdr = 7 + hdr.dcid.len + hdr.scid.len + token_extent hdr + varint_len hdr.payload_len

-- The header as the receiver has it: the connection ids with zeros behind their bytes, a token only
-- of an Initial packet, the packet number cut to its lowest bytes, and where it stands.
abbrev pub received_long : LongHeader → LongHeader
received_long hdr = record {
  type = hdr.type;
  version = hdr.version;
  dcid = received hdr.dcid;
  scid = received hdr.scid;
  token = (received_token hdr).token;
  token_len = (received_token hdr).token_len;
  payload_len = hdr.payload_len;
  pkt_num = hdr.pkt_num % 2 ^ (hdr.pkt_num_len * 8);
  pkt_num_len = hdr.pkt_num_len;
  header_len = offset hdr + hdr.pkt_num_len;
  pkt_num_offset = offset hdr;
}

-- A header with a packet number that fits the fields of its structure and the limits of the decoder.
abbrev pub IsNumbered : LongHeader → Type 0
IsNumbered hdr =
    (is_retry hdr.type ≡ false)
    × (hdr.version < 2 ^ 32)
    × (hdr.dcid.len ≤ length hdr.dcid.bytes)
    × (hdr.scid.len ≤ length hdr.scid.bytes)
    × HasToken hdr
    × (hdr.payload_len ≤ max_payload_len)

read_numbered-Spells :
    (total i byte room : ℕ) (hdr : LongHeader)
    → hdr.payload_len ≤ max_payload_len
    → varint_len hdr.payload_len ≤ room
    → hdr.pkt_num_len ≤ 4
    → Shows byte hdr.type hdr.pkt_num_len
    → i + varint_len hdr.payload_len ≡ offset hdr
    → Spells total i
        (read_numbered total byte hdr.version
          (received hdr.dcid)
          (received hdr.scid)
          (received_token hdr))
        (varint_bytes hdr.payload_len room ++ pn_bytes hdr.pkt_num_len hdr.pkt_num)
        (received_long hdr)
unfolding read_numbered
read_numbered-Spells total i byte room hdr small fits n4 (s1, s2, s3, s4) at_offset =
    let written = varint_bytes-some hdr.payload_len room (omega arith) fits in
    let numbered = length-pn_bytes hdr.pkt_num_len hdr.pkt_num in
    rw (s3, s4)
      (>>=-Spells _ _ _ _ _ _ _ _
        (get_varint-Spells total i hdr.payload_len room (omega arith) fits)
        (reject_if-Spells _ _ _ _ _ _ (within max_payload_len hdr.payload_len small) (
          >>=-Spells _ _ _ _ [] _ _ _
            (position_eq-Spells _ _ (offset hdr) (omega (arith, written, at_offset)))
            (unit-right _ _ _ _ _ (
              >>=-Spells _ _ _ _ _ _ _ _ (get_pkt_num-Spells _ _ hdr.pkt_num_len hdr.pkt_num n4) (
                >>=-Spells _ _ _ _ [] [] _ _
                  (position_eq-Spells _ _ (offset hdr + hdr.pkt_num_len)
                    (omega (arith, written, numbered, at_offset)))
                  (pure-Spells _ _ _)))))))

pub read_long-Spells :
    (total byte room1 room2 : ℕ) (hdr : LongHeader)
    → IsNumbered hdr
    → hdr.dcid.len ≤ max_cid_len
    → hdr.scid.len ≤ max_cid_len
    → varint_len hdr.token_len ≤ room1
    → varint_len hdr.payload_len ≤ room2
    → hdr.pkt_num_len ≤ 4
    → Shows byte hdr.type hdr.pkt_num_len
    → Spells total 1
        (read_long total byte)
        (u32_bytes hdr.version
          ++ (cid_bytes hdr.dcid
              ++ (cid_bytes hdr.scid
                  ++ (token_bytes hdr room1
                      ++ (varint_bytes hdr.payload_len room2
                          ++ pn_bytes hdr.pkt_num_len hdr.pkt_num)))))
        (received_long hdr)
unfolding read_long
read_long-Spells total byte room1 room2 hdr (plain, version, d, s, token, payload) dl sl fits1 fits2
      n4 shows =
    let dn = length-cid_bytes hdr.dcid (dl, d) in
    let sn = length-cid_bytes hdr.scid (sl, s) in
    let tn = length-token_bytes hdr room1 token fits1 in
    rw (shows.2, plain)
      (>>=-Spells _ _ _ _ _ _ _ _ (get_u32-Spells total 1 hdr.version version) (
        >>=-Spells _ _ _ _ _ _ _ _ (get_cid-Spells _ _ hdr.dcid (dl, d)) (
          >>=-Spells _ _ _ _ _ _ _ _ (get_cid-Spells _ _ hdr.scid (sl, s)) (
            >>=-Spells _ _ _ _ _ _ _ _ (get_token_if-Spells _ _ room1 hdr token fits1) (
              read_numbered-Spells total _ byte room2 hdr payload fits2 n4 shows
                (omega (arith, dn, sn, tn, u32_length hdr.version)))))))
  where
    u32_length : (v : ℕ) → length (u32_bytes v) ≡ 4
    u32_length v = unfold u32_bytes in refl
