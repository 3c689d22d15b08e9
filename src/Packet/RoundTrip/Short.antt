-- ===== src/Packet/RoundTrip/Short.antt =====
-- The round trip of the short header.
use nxp.Prelude.{
  ℕ, zero, suc, ◌+◌, ◌-◌, ◌*◌, ◌%◌, ◌^◌, ◌≤◌, ◌≡◌, refl, arith, List, [], ◌∷◌, ◌++◌, some, Bool,
  true, false, not, ◌==◌, ltb, length, take, length-take, length-append, inr, if◌then◌else◌,
}
use nxp.Codec.{◌>>=◌, reject_if, get_byte}
use nxp.Frame.Types.{max_cid_len}
use nxp.Frame.Decode.{conn_id}
use nxp.Packet.{ShortHeader, is_long_header}
use nxp.Packet.Encode.{short_first, short_bytes, encode_short_header, pn_bytes}
use nxp.Packet.Decode.{read_short, decode_short_header, finish}
use nxp.Packet.RoundTrip.Spells.{
  Spells, pure-Spells, >>=-Spells, position_eq-Spells, get_byte-Spells, reject_if-Spells,
}
use nxp.Packet.RoundTrip.Fields.{get_first-Spells, get_pkt_num-Spells, length-pn_bytes, unit-right}
use Prim.Native.Nat.{bit_and, bit_or}

abbrev first : Bool → Bool → ℕ → ℕ
first spin phase n =
    let base = if spin then bit_or 0x40 0x20 else 0x40 in
    bit_or (if phase then bit_or base 0x10 else base) (n - 1)

-- What the decoder sees in the first byte.
abbrev Shows : ℕ → Bool → Bool → ℕ → Type 0
Shows byte spin phase n =
    (is_long_header byte ≡ false)
    × ((bit_and byte 0x40 == 0) ≡ false)
    × (not (bit_and byte 0x20 == 0) ≡ spin)
    × (not (bit_and byte 0x10 == 0) ≡ phase)
    × (bit_and byte 0x03 + 1 ≡ n)

first-Shows : (spin phase : Bool) (n : ℕ) → 1 ≤ n → n ≤ 4 → Shows (first spin phase n) spin phase n
unfolding is_long_header
first-Shows spin phase zero h k = absurd (omega arith)
first-Shows true true (suc zero) h k = (refl, refl, refl, refl, refl)
first-Shows true false (suc zero) h k = (refl, refl, refl, refl, refl)
first-Shows false true (suc zero) h k = (refl, refl, refl, refl, refl)
first-Shows false false (suc zero) h k = (refl, refl, refl, refl, refl)
first-Shows true true (suc (suc zero)) h k = (refl, refl, refl, refl, refl)
first-Shows true false (suc (suc zero)) h k = (refl, refl, refl, refl, refl)
first-Shows false true (suc (suc zero)) h k = (refl, refl, refl, refl, refl)
first-Shows false false (suc (suc zero)) h k = (refl, refl, refl, refl, refl)
first-Shows true true (suc (suc (suc zero))) h k = (refl, refl, refl, refl, refl)
first-Shows true false (suc (suc (suc zero))) h k = (refl, refl, refl, refl, refl)
first-Shows false true (suc (suc (suc zero))) h k = (refl, refl, refl, refl, refl)
first-Shows false false (suc (suc (suc zero))) h k = (refl, refl, refl, refl, refl)
first-Shows true true (suc (suc (suc (suc zero)))) h k = (refl, refl, refl, refl, refl)
first-Shows true false (suc (suc (suc (suc zero)))) h k = (refl, refl, refl, refl, refl)
first-Shows false true (suc (suc (suc (suc zero)))) h k = (refl, refl, refl, refl, refl)
first-Shows false false (suc (suc (suc (suc zero)))) h k = (refl, refl, refl, refl, refl)
first-Shows spin phase (suc (suc (suc (suc (suc n))))) h k = absurd (omega arith)

-- The header as the receiver has it: the bytes of the connection id with zeros behind them, the
-- packet number cut to its lowest bytes, and where the packet number stands.
abbrev pub received_short : ShortHeader → ℕ → ShortHeader
received_short hdr dcid_len = record {
  dcid = conn_id dcid_len (take dcid_len hdr.dcid.bytes);
  spin_bit = hdr.spin_bit;
  key_phase = hdr.key_phase;
  pkt_num = hdr.pkt_num % 2 ^ (hdr.pkt_num_len * 8);
  pkt_num_len = hdr.pkt_num_len;
  header_len = 1 + dcid_len + hdr.pkt_num_len;
  pkt_num_offset = 1 + dcid_len;
}

read_short-Spells :
    (total dcid_len byte : ℕ) (hdr : ShortHeader)
    → dcid_len ≤ length hdr.dcid.bytes
    → hdr.pkt_num_len ≤ 4
    → Shows byte hdr.spin_bit hdr.key_phase hdr.pkt_num_len
    → Spells total 1
        (read_short total dcid_len byte)
        (take dcid_len hdr.dcid.bytes ++ pn_bytes hdr.pkt_num_len hdr.pkt_num)
        (received_short hdr dcid_len)
unfolding read_short
read_short-Spells total dcid_len byte hdr have small (s1, s2, s3, s4, s5) =
    let taken : length (take dcid_len hdr.dcid.bytes) ≡ dcid_len =
      omega (arith, length-take dcid_len hdr.dcid.bytes) in
    let numbered = length-pn_bytes hdr.pkt_num_len hdr.pkt_num in
    rw (s3, s4, s5)
      (>>=-Spells _ _ _ _ _ _ _ _ (get_first-Spells total 1 dcid_len hdr.dcid.bytes have) (
        >>=-Spells _ _ _ _ [] _ _ _ (position_eq-Spells _ _ (1 + dcid_len) (omega (arith, taken))) (
          unit-right _ _ _ _ _ (
            >>=-Spells _ _ _ _ _ _ _ _ (get_pkt_num-Spells _ _ hdr.pkt_num_len hdr.pkt_num small) (
              >>=-Spells _ _ _ _ [] [] _ _
                (position_eq-Spells _ _ (1 + dcid_len + hdr.pkt_num_len)
                  (omega (arith, taken, numbered)))
                (pure-Spells _ _ _))))))

length-short_bytes :
    (hdr : ShortHeader) (dcid_len : ℕ)
    → dcid_len ≤ length hdr.dcid.bytes
    → length (short_bytes hdr dcid_len) ≡ 1 + dcid_len + hdr.pkt_num_len
unfolding short_bytes
length-short_bytes hdr dcid_len have = omega (
  arith,
  length-append (take dcid_len hdr.dcid.bytes) (pn_bytes hdr.pkt_num_len hdr.pkt_num),
  length-take dcid_len hdr.dcid.bytes,
  length-pn_bytes hdr.pkt_num_len hdr.pkt_num,
)

-- What the checks of the encoder have established.
encode_short_header-inv :
    (hdr : ShortHeader) (dcid_len buf_len : ℕ) (out : List ℕ)
    → encode_short_header hdr dcid_len buf_len ≡ some out
    → (out ≡ short_bytes hdr dcid_len)
      × (1 ≤ hdr.pkt_num_len)
      × (hdr.pkt_num_len ≤ 4)
      × (dcid_len ≤ max_cid_len)
      × (1 + dcid_len + hdr.pkt_num_len ≤ buf_len)
unfolding encode_short_header
encode_short_header-inv hdr dcid_len buf_len out h = ground arith

-- The writes stay inside the buffer: as many bytes as the encoder has checked for.
pub encode_short_header_bound :
    (hdr : ShortHeader) (dcid_len buf_len : ℕ) (out : List ℕ)
    → dcid_len ≤ length hdr.dcid.bytes
    → encode_short_header hdr dcid_len buf_len ≡ some out
    → (length out ≡ 1 + dcid_len + hdr.pkt_num_len) × (length out ≤ buf_len)
encode_short_header_bound hdr dcid_len buf_len out have h =
    let (e, n1, n4, small, room) = encode_short_header-inv hdr dcid_len buf_len out h in
    let n = length-short_bytes hdr dcid_len have in rw e (n, omega (arith, n))

decodes :
    (hdr : ShortHeader) (dcid_len : ℕ) (buf rest : List ℕ)
    → 1 ≤ hdr.pkt_num_len
    → dcid_len ≤ max_cid_len
    → length buf ≡ 1 + dcid_len + hdr.pkt_num_len + length rest
    → (hdr2 : ShortHeader)
    → (get_byte >>= λ byte.
          reject_if
            (is_long_header byte)
            (reject_if (bit_and byte 0x40 == 0) (read_short (length buf) dcid_len byte)))
        buf
      ≡ some (hdr2, rest)
    → decode_short_header buf dcid_len ≡ inr hdr2
unfolding decode_short_header finish
decodes hdr dcid_len buf rest h small n hdr2 e = rw (short hdr, long hdr, e) refl
  where
    short : (hdr : ShortHeader) → ltb max_cid_len dcid_len ≡ false
    short hdr = ground arith

    long : (hdr2 : ShortHeader) → ltb (length buf) (1 + dcid_len + 1) ≡ false
    long hdr2 = ground arith

body-Spells :
    (hdr : ShortHeader) (dcid_len total : ℕ)
    → 1 ≤ hdr.pkt_num_len
    → hdr.pkt_num_len ≤ 4
    → dcid_len ≤ length hdr.dcid.bytes
    → Spells total 0
        (get_byte >>= λ byte.
          reject_if
            (is_long_header byte)
            (reject_if (bit_and byte 0x40 == 0) (read_short total dcid_len byte)))
        (short_bytes hdr dcid_len)
        (received_short hdr dcid_len)
unfolding short_bytes short_first
body-Spells hdr dcid_len total n1 n4 have =
    let shows = first-Shows hdr.spin_bit hdr.key_phase hdr.pkt_num_len n1 n4 in
    >>=-Spells total 0 get_byte _ (short_first hdr ∷ []) _ (short_first hdr) _
      (get_byte-Spells _ _ _)
      (reject_if-Spells _ _ _ _ _ _ shows.0 (
        reject_if-Spells _ _ _ _ _ _ shows.1
          (read_short-Spells total dcid_len (short_first hdr) hdr have n4 shows)))

bytes-decoded :
    (hdr : ShortHeader) (dcid_len : ℕ) (payload : List ℕ)
    → 1 ≤ hdr.pkt_num_len
    → hdr.pkt_num_len ≤ 4
    → dcid_len ≤ max_cid_len
    → dcid_len ≤ length hdr.dcid.bytes
    → decode_short_header (short_bytes hdr dcid_len ++ payload) dcid_len
      ≡ inr (received_short hdr dcid_len)
unfolding Spells
bytes-decoded hdr dcid_len payload n1 n4 small have =
    let buf = short_bytes hdr dcid_len ++ payload in
    let count : length buf ≡ length (short_bytes hdr dcid_len) + length payload =
      length-append (short_bytes hdr dcid_len) payload in
    let n = length-short_bytes hdr dcid_len have in
    decodes hdr dcid_len buf payload n1 small (omega (arith, count, n))
      (received_short hdr dcid_len)
      (body-Spells hdr dcid_len (length buf) n1 n4 have payload (omega (arith, count)))

-- A short header that the encoder has written, with any payload behind it, is decoded to the header
-- with its packet number cut to the bytes that were sent.
pub decode_short_header-encode_short_header :
    (hdr : ShortHeader) (dcid_len buf_len : ℕ) (out payload : List ℕ)
    → dcid_len ≤ length hdr.dcid.bytes
    → encode_short_header hdr dcid_len buf_len ≡ some out
    → decode_short_header (out ++ payload) dcid_len ≡ inr (received_short hdr dcid_len)
decode_short_header-encode_short_header hdr dcid_len buf_len out payload have h =
    let (e, n1, n4, small, room) = encode_short_header-inv hdr dcid_len buf_len out h in
    rw e (bytes-decoded hdr dcid_len payload n1 n4 small have)
