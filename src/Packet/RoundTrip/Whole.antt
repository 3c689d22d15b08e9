-- ===== src/Packet/RoundTrip/Whole.antt =====
-- Long headers: what the encoder has checked, and the theorems.
use nxp.Prelude.{
  ℕ, ◌+◌, ◌-◌, ◌≤◌, ◌≡◌, ◌∙◌, refl, ap, arith, List, [], ◌∷◌, ◌++◌, append_assoc, some, false, ◌==◌,
  ltb, not, length, length-append, inr, inl, Option-cases, Bool-cases,
}
use nxp.Codec.{◌>>=◌, reject_if, get_byte}
use nxp.Varint.{varint_len}
use nxp.Frame.Types.{max_cid_len}
use nxp.Packet.{LongHeader, is_long_header, is_initial, max_token_len, u32_bytes}
use nxp.Packet.Encode.{
  type_bits, long_first, long_prefix, long_bytes, long_needed, long_refused, encode_long_header,
  token_bytes, varint_bytes, pn_bytes, cid_bytes,
}
use nxp.Packet.Decode.{read_long, decode_long_header, finish}
use nxp.Packet.RoundTrip.Spells.{Spells, >>=-Spells, get_byte-Spells, reject_if-Spells}
use nxp.Packet.RoundTrip.Fields.{IsCid, length-cid_bytes, length-pn_bytes, varint_bytes-some}
use nxp.Packet.RoundTrip.Long.{Shows, first-Shows, read_long-Spells, received_long, IsNumbered}
use nxp.Packet.RoundTrip.Long.Token.{HasToken, token_extent, length-token_bytes}
use Prim.Native.Nat.{bit_and}

encode_long_header-inv :
    (hdr : LongHeader) (buf_len : ℕ) (out : List ℕ)
    → encode_long_header hdr buf_len ≡ some out
    → (bits : ℕ) × (type_bits hdr.type ≡ some bits)
      × (out ≡ long_bytes bits hdr buf_len)
      × (long_refused hdr buf_len ≡ false)
unfolding encode_long_header
encode_long_header-inv hdr buf_len out h = elim (Option-cases (type_bits hdr.type)) [
  | inl e ↦ absurd (ground (arith, e, h))
  | inr (bits, e) ↦ (bits, e, ground (arith, e, h), ground (arith, e, h))
]

-- The checks, one by one.
checked :
    (hdr : LongHeader) (buf_len : ℕ)
    → long_refused hdr buf_len ≡ false
    → (1 ≤ hdr.pkt_num_len)
      × (hdr.pkt_num_len ≤ 4)
      × (hdr.dcid.len ≤ max_cid_len)
      × (hdr.scid.len ≤ max_cid_len)
      × (1 ≤ varint_len hdr.payload_len)
      × (7
            + hdr.dcid.len
            + hdr.scid.len
            + token_extent hdr
            + (varint_len hdr.payload_len + hdr.pkt_num_len)
          ≤ buf_len)
unfolding long_refused long_needed
checked hdr buf_len h = ground arith

short_varint : (n : ℕ) → n ≤ max_token_len → varint_len n ≤ 2
unfolding varint_len
short_varint n h = ground arith

-- The room that is left for the token is enough, also where none is written.
token_fits :
    (hdr : LongHeader) (room : ℕ)
    → HasToken hdr
    → token_extent hdr + 2 ≤ room
    → varint_len hdr.token_len ≤ room
token_fits hdr room (small, carries) h = elim (Bool-cases (is_initial hdr.type)) [
  | inl first ↦ ground (arith, first, h)
  | inr other ↦ omega (arith, short_varint hdr.token_len small)
]

-- The two rooms that the encoder hands to `nxp_varint_encode`.
abbrev room_1 : LongHeader → ℕ → ℕ
room_1 hdr buf_len = buf_len - (7 + hdr.dcid.len + hdr.scid.len)

abbrev room_2 : LongHeader → ℕ → ℕ
room_2 hdr buf_len = room_1 hdr buf_len - token_extent hdr

length-long_prefix :
    (bits : ℕ) (hdr : LongHeader)
    → IsCid hdr.dcid
    → IsCid hdr.scid
    → length (long_prefix bits hdr) ≡ 7 + hdr.dcid.len + hdr.scid.len
unfolding long_prefix u32_bytes
length-long_prefix bits hdr d s = omega (
  arith,
  length-append (cid_bytes hdr.dcid) (cid_bytes hdr.scid),
  length-cid_bytes hdr.dcid d,
  length-cid_bytes hdr.scid s,
)

abbrev body : ℕ → LongHeader → ℕ → List ℕ
body bits hdr buf_len =
    long_first bits hdr.pkt_num_len
    ∷ (u32_bytes hdr.version
        ++ (cid_bytes hdr.dcid
            ++ (cid_bytes hdr.scid
                ++ (token_bytes hdr (room_1 hdr buf_len)
                    ++ (varint_bytes hdr.payload_len (room_2 hdr buf_len)
                        ++ pn_bytes hdr.pkt_num_len hdr.pkt_num)))))

long_prefix-append :
    (bits : ℕ) (hdr : LongHeader) (l : List ℕ)
    → long_prefix bits hdr ++ l
      ≡ long_first bits hdr.pkt_num_len
        ∷ (u32_bytes hdr.version ++ (cid_bytes hdr.dcid ++ (cid_bytes hdr.scid ++ l)))
unfolding long_prefix
long_prefix-append bits hdr l =
    ap (λ (k : List ℕ). long_first bits hdr.pkt_num_len ∷ k)
      (append_assoc (u32_bytes hdr.version) (cid_bytes hdr.dcid ++ cid_bytes hdr.scid) l
        ∙ ap (λ (k : List ℕ). u32_bytes hdr.version ++ k)
            (append_assoc (cid_bytes hdr.dcid) (cid_bytes hdr.scid) l))

long_bytes-body :
    (bits : ℕ) (hdr : LongHeader) (buf_len : ℕ)
    → IsCid hdr.dcid
    → IsCid hdr.scid
    → HasToken hdr
    → varint_len hdr.token_len ≤ room_1 hdr buf_len
    → long_bytes bits hdr buf_len ≡ body bits hdr buf_len
unfolding long_bytes
long_bytes-body bits hdr buf_len d s token fits =
    rw (length-long_prefix bits hdr d s, length-token_bytes hdr (room_1 hdr buf_len) token fits)
      (long_prefix-append bits hdr _)

body-Spells :
    (bits buf_len total : ℕ) (hdr : LongHeader)
    → IsNumbered hdr
    → hdr.dcid.len ≤ max_cid_len
    → hdr.scid.len ≤ max_cid_len
    → varint_len hdr.token_len ≤ room_1 hdr buf_len
    → varint_len hdr.payload_len ≤ room_2 hdr buf_len
    → hdr.pkt_num_len ≤ 4
    → Shows (long_first bits hdr.pkt_num_len) hdr.type hdr.pkt_num_len
    → Spells total 0
        (get_byte >>= λ byte.
          reject_if
            (not (is_long_header byte))
            (reject_if (bit_and byte 0x40 == 0) (read_long total byte)))
        (body bits hdr buf_len)
        (received_long hdr)
body-Spells bits buf_len total hdr ok dl sl fits1 fits2 n4 shows =
    let byte = long_first bits hdr.pkt_num_len in
    >>=-Spells total 0 get_byte _ (byte ∷ []) _ byte _ (get_byte-Spells _ _ _) (
      reject_if-Spells _ _ _ _ _ _ (rw (shows.0) refl) (
        reject_if-Spells _ _ _ _ _ _ shows.1 (
          read_long-Spells total byte (room_1 hdr buf_len) (room_2 hdr buf_len) hdr ok dl sl fits1
            fits2 n4 shows)))

length-body :
    (bits : ℕ) (hdr : LongHeader) (buf_len : ℕ)
    → IsCid hdr.dcid
    → IsCid hdr.scid
    → HasToken hdr
    → hdr.payload_len ≤ 65536
    → varint_len hdr.token_len ≤ room_1 hdr buf_len
    → varint_len hdr.payload_len ≤ room_2 hdr buf_len
    → length (body bits hdr buf_len)
      ≡ 7
        + hdr.dcid.len
        + hdr.scid.len
        + token_extent hdr
        + (varint_len hdr.payload_len + hdr.pkt_num_len)
unfolding u32_bytes
length-body bits hdr buf_len d s token small fits1 fits2 =
    let t = token_bytes hdr (room_1 hdr buf_len) in
    let p = varint_bytes hdr.payload_len (room_2 hdr buf_len) in
    let n = pn_bytes hdr.pkt_num_len hdr.pkt_num in
    omega (
      arith,
      length-append (cid_bytes hdr.dcid) (cid_bytes hdr.scid ++ (t ++ (p ++ n))),
      length-append (cid_bytes hdr.scid) (t ++ (p ++ n)),
      length-append t (p ++ n),
      length-append p n,
      length-cid_bytes hdr.dcid d,
      length-cid_bytes hdr.scid s,
      length-token_bytes hdr (room_1 hdr buf_len) token fits1,
      varint_bytes-some hdr.payload_len (room_2 hdr buf_len) (omega arith) fits2,
      length-pn_bytes hdr.pkt_num_len hdr.pkt_num,
    )

decodes :
    (hdr : LongHeader) (buf rest : List ℕ)
    → 7 ≤ length buf
    → (get_byte >>= λ byte.
          reject_if
            (not (is_long_header byte))
            (reject_if (bit_and byte 0x40 == 0) (read_long (length buf) byte)))
        buf
      ≡ some (hdr, rest)
    → decode_long_header buf ≡ inr hdr
unfolding decode_long_header finish
decodes hdr buf rest h e = rw (long (length buf) h, e) refl
  where
    long : (n : ℕ) → 7 ≤ n → ltb n 7 ≡ false
    long n h = ground arith

-- What a successful encoding of a numbered header comes to: the bytes, their number, and their reading.
written :
    (hdr : LongHeader) (buf_len : ℕ) (out payload : List ℕ)
    → IsNumbered hdr
    → encode_long_header hdr buf_len ≡ some out
    → (length out ≤ buf_len)
      × (length out ≡ (received_long hdr).header_len)
      × (decode_long_header (out ++ payload) ≡ inr (received_long hdr))
unfolding Spells
written hdr buf_len out payload ok h =
    let (plain, version, d, s, token, small) = ok in
    let (bits, typed, e, accepted) = encode_long_header-inv hdr buf_len out h in
    let (n1, n4, dl, sl, p1, room) = checked hdr buf_len accepted in
    let fits1 = token_fits hdr (room_1 hdr buf_len) token (omega (arith, room)) in
    let fits2 : varint_len hdr.payload_len ≤ room_2 hdr buf_len = omega (arith, room) in
    let bytes = e ∙ long_bytes-body bits hdr buf_len (dl, d) (sl, s) token fits1 in
    let n = length-body bits hdr buf_len (dl, d) (sl, s) token small fits1 fits2 in
    let buf = body bits hdr buf_len ++ payload in
    let count = length-append (body bits hdr buf_len) payload in
    let shows = first-Shows hdr.type bits hdr.pkt_num_len n1 n4 typed in
    let spelled =
      body-Spells bits buf_len (length buf) hdr ok dl sl fits1 fits2 n4 shows payload
        (omega (arith, count)) in
    rw bytes (
      omega (arith, n, room),
      omega (arith, n),
      decodes (received_long hdr) buf payload (omega (arith, count, n)) spelled,
    )

-- A long header of a packet with a packet number, that the encoder has written, is decoded to the
-- header with its packet number cut to the bytes that were sent, whatever payload stands behind it.
-- The header's fields fit its structure and the decoder's limits on the token and the payload.
pub decode_long_header-encode_long_header :
    (hdr : LongHeader) (buf_len : ℕ) (out payload : List ℕ)
    → IsNumbered hdr
    → encode_long_header hdr buf_len ≡ some out
    → decode_long_header (out ++ payload) ≡ inr (received_long hdr)
decode_long_header-encode_long_header hdr buf_len out payload ok h =
    (written hdr buf_len out payload ok h).2

-- The writes of the encoder, none of which is checked by itself, stay inside the buffer, and they
-- are as many bytes as the decoder will report for the header.
pub encode_long_header_bound :
    (hdr : LongHeader) (buf_len : ℕ) (out : List ℕ)
    → IsNumbered hdr
    → encode_long_header hdr buf_len ≡ some out
    → (length out ≤ buf_len) × (length out ≡ (received_long hdr).header_len)
encode_long_header_bound hdr buf_len out ok h =
    let (inside, n, d) = written hdr buf_len out [] ok h in (inside, n)
