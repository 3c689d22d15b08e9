-- ===== src/Packet/RoundTrip/Fields.antt =====
-- The fields of the headers: 32-bit words, connection ids, tokens and packet numbers.
use nxp.Prelude.{
  ℕ, zero, suc, ◌+◌, ◌-◌, ◌*◌, ◌/◌, ◌%◌, ◌^◌, ◌≤◌, ◌<◌, ◌≡◌, ◌∙◌, refl, sym, ap, arith, List, [],
  ◌∷◌, ◌++◌, some, none, Option, Bool, true, false, ltb, ltb-false, length, length-take,
  length-append, take, take_all, inl, inr, Option-cases,
}
use nxp.Prelude.Bits.{bit_or-disjoint}
use nxp.Codec.{Parser, ◌>>=◌, get_varint, get_byte, get_bytes, get_data}
use nxp.Codec.Laws.{Carries}
use nxp.Varint
use nxp.Varint.{varint_max, varint_len}
use nxp.Varint.RoundTrip.{decode-encode}
use nxp.Varint.Shape.{length-encode, encode_total}
use nxp.Frame.Types.{ConnId, max_cid_len}
use nxp.Frame.Decode.{conn_id}
use nxp.Packet.{u32_bytes, u32_be}
use nxp.Packet.Encode.{pn_bytes, cid_bytes, varint_bytes, token_data}
use nxp.Packet.Decode.{get_u32, get_cid, pn_value, get_pkt_num}
use nxp.Packet.RoundTrip.Spells.{
  Spells, pure-Spells, >>=-Spells, get_byte-Spells, get_bytes-Spells, reject_if-Spells, within,
}
use Prim.Native.Nat.{bit_or}

byte_at : (v k : ℕ) → v / 2 ^ k % 256 < 256
byte_at v k = omega arith

or_byte : (a b : ℕ) → b < 256 → bit_or (a * 2 ^ 8) b ≡ a * 256 + b
or_byte a b h = omega (arith, bit_or-disjoint 8 a b h)

pub pn_value_step :
    (a b : ℕ) (bytes : List ℕ) → b < 256 → pn_value a (b ∷ bytes) ≡ pn_value (a * 256 + b) bytes
unfolding pn_value
pn_value_step a b bytes h = rw (or_byte a b h) refl

joined_1 : (v : ℕ) → (0 * 256 + v / 2 ^ 0 % 256) ≡ v % 2 ^ 8
joined_1 v = omega arith

joined_2 : (v : ℕ) → (((0 * 256 + v / 2 ^ 8 % 256)) * 256 + v / 2 ^ 0 % 256) ≡ v % 2 ^ 16
joined_2 v = omega arith

joined_3 :
    (v : ℕ)
    → (((((0 * 256 + v / 2 ^ 16 % 256)) * 256 + v / 2 ^ 8 % 256)) * 256 + v / 2 ^ 0 % 256)
      ≡ v % 2 ^ 24
joined_3 v = omega arith

joined_4 :
    (v : ℕ)
    → (((((((0 * 256 + v / 2 ^ 24 % 256)) * 256 + v / 2 ^ 16 % 256)) * 256 + v / 2 ^ 8 % 256)) * 256
        + v / 2 ^ 0 % 256)
      ≡ v % 2 ^ 32
joined_4 v = omega arith

-- Of a packet number the lowest `n` bytes are kept.
pub pn_value-pn_bytes : (n v : ℕ) → n ≤ 4 → pn_value 0 (pn_bytes n v) ≡ v % 2 ^ (n * 8)
unfolding pn_bytes pn_value
pn_value-pn_bytes zero v h = omega arith
pn_value-pn_bytes (suc zero) v h =
    pn_value_step 0 (v / 2 ^ 0 % 256) (pn_bytes 0 v) (omega arith) ∙ joined_1 v
pn_value-pn_bytes (suc (suc zero)) v h =
    pn_value_step 0 (v / 2 ^ 8 % 256) (pn_bytes 1 v) (omega arith)
    ∙ pn_value_step (0 * 256 + v / 2 ^ 8 % 256) (v / 2 ^ 0 % 256) (pn_bytes 0 v) (omega arith)
    ∙ joined_2 v
pn_value-pn_bytes (suc (suc (suc zero))) v h =
    pn_value_step 0 (v / 2 ^ 16 % 256) (pn_bytes 2 v) (omega arith)
    ∙ pn_value_step (0 * 256 + v / 2 ^ 16 % 256) (v / 2 ^ 8 % 256) (pn_bytes 1 v) (omega arith)
    ∙ pn_value_step (((0 * 256 + v / 2 ^ 16 % 256)) * 256 + v / 2 ^ 8 % 256) (v / 2 ^ 0 % 256)
        (pn_bytes 0 v) (omega arith)
    ∙ joined_3 v
pn_value-pn_bytes (suc (suc (suc (suc zero)))) v h =
    pn_value_step 0 (v / 2 ^ 24 % 256) (pn_bytes 3 v) (omega arith)
    ∙ pn_value_step (0 * 256 + v / 2 ^ 24 % 256) (v / 2 ^ 16 % 256) (pn_bytes 2 v) (omega arith)
    ∙ pn_value_step (((0 * 256 + v / 2 ^ 24 % 256)) * 256 + v / 2 ^ 16 % 256) (v / 2 ^ 8 % 256)
        (pn_bytes 1 v) (omega arith)
    ∙ pn_value_step
        (((((0 * 256 + v / 2 ^ 24 % 256)) * 256 + v / 2 ^ 16 % 256)) * 256 + v / 2 ^ 8 % 256)
        (v / 2 ^ 0 % 256) (pn_bytes 0 v) (omega arith)
    ∙ joined_4 v
pn_value-pn_bytes (suc (suc (suc (suc (suc n))))) v h = absurd (omega arith)

pub length-pn_bytes : (n v : ℕ) → length (pn_bytes n v) ≡ n
unfolding pn_bytes
length-pn_bytes zero v = refl
length-pn_bytes (suc n) v = omega (arith, length-pn_bytes n v)

pub get_pkt_num-Spells :
    (total i n v : ℕ) → n ≤ 4 → Spells total i (get_pkt_num n) (pn_bytes n v) (v % 2 ^ (n * 8))
unfolding get_pkt_num Spells
get_pkt_num-Spells total i n v h rest len =
    let bytes = get_bytes-Spells total i (pn_bytes n v) rest len in
    rw
      (
        ap (λ (k : ℕ). get_bytes k (pn_bytes n v ++ rest)) (sym (length-pn_bytes n v)) ∙ bytes,
        pn_value-pn_bytes n v h,
        ◌>>=◌,
      )
      refl

u32_be-u32_bytes :
    (v : ℕ)
    → v < 2 ^ 32
    → u32_be (v / 2 ^ 24 % 256) (v / 2 ^ 16 % 256) (v / 2 ^ 8 % 256) (v % 256) ≡ v
unfolding u32_be
u32_be-u32_bytes v h =
    let b3 = v / 2 ^ 24 % 256 in
    let b2 = v / 2 ^ 16 % 256 in
    let b1 = v / 2 ^ 8 % 256 in
    let or1 : bit_or (b3 * 2 ^ 24) (b2 * 2 ^ 16) ≡ (b3 * 256 + b2) * 2 ^ 16 =
      bit_or-disjoint 24 b3 (b2 * 2 ^ 16) (omega arith) ∙ omega arith in
    let or2 : bit_or ((b3 * 256 + b2) * 2 ^ 16) (b1 * 2 ^ 8)
        ≡ ((b3 * 256 + b2) * 256 + b1) * 2 ^ 8 =
      bit_or-disjoint 16 (b3 * 256 + b2) (b1 * 2 ^ 8) (omega arith) ∙ omega arith in
    let or3 = bit_or-disjoint 8 ((b3 * 256 + b2) * 256 + b1) (v % 256) (omega arith) in
    rw (or1, or2, or3) (omega arith)

pub get_u32-Spells : (total i v : ℕ) → v < 2 ^ 32 → Spells total i get_u32 (u32_bytes v) v
unfolding Spells get_u32 u32_bytes
get_u32-Spells total i v h rest len = rw (u32_be-u32_bytes v h) refl

-- A connection id that was built by the library: `len` of its bytes are in use, at most 20.
abbrev pub IsCid : ConnId → Type 0
IsCid cid = (cid.len ≤ max_cid_len) × (cid.len ≤ length cid.bytes)

-- The bytes in use, with zeros behind them.
abbrev pub received : ConnId → ConnId
received cid = conn_id cid.len (take cid.len cid.bytes)

pub get_first-Spells :
    (total i n : ℕ) (bytes : List ℕ)
    → n ≤ length bytes
    → Spells total i (get_bytes n) (take n bytes) (take n bytes)
unfolding Spells
get_first-Spells total i n bytes h rest len =
    let taken : n ≡ length (take n bytes) = omega (arith, length-take n bytes) in
    ap (λ (k : ℕ). get_bytes k (take n bytes ++ rest)) taken
    ∙ get_bytes-Spells total i (take n bytes) rest len

pub unit-right {ℓ} :
    {A : Type ℓ} (total i : ℕ) (p : Parser A) (u : List ℕ) (a : A)
    → Spells total i p (u ++ []) a
    → Spells total i p u a
unit-right total i p u a h = rw (nxp.Prelude.append-nil u) at h

pub get_cid-Spells :
    (total i : ℕ) (cid : ConnId) → IsCid cid → Spells total i get_cid (cid_bytes cid) (received cid)
unfolding get_cid cid_bytes
get_cid-Spells total i cid (small, have) =
    >>=-Spells total i get_byte _ (cid.len ∷ []) (take cid.len cid.bytes) cid.len (received cid)
      (get_byte-Spells total i cid.len)
      (reject_if-Spells _ _ _ _ _ _ (within max_cid_len cid.len small) (
        unit-right _ _ _ _ _ (
          >>=-Spells _ _ _ _ _ [] _ _ (get_first-Spells _ _ cid.len cid.bytes have)
            (pure-Spells _ _ _))))

-- A number that fits is written, and read back.
pub varint_bytes-some :
    (v room : ℕ)
    → v ≤ varint_max
    → varint_len v ≤ room
    → (Varint.encode v room ≡ some (varint_bytes v room))
      × (length (varint_bytes v room) ≡ varint_len v)
unfolding varint_bytes
varint_bytes-some v room small fits =
    let (out, e) = encode_total v room small fits in
    let n = (length-encode v room out e).1 in
    (shown (Varint.encode v room) out e, counted (Varint.encode v room) out e n)
  where
    bytes : Option (List ℕ) → List ℕ
    bytes e = elim e [ none ↦ [] | some out ↦ out ]

    shown : (e : Option (List ℕ)) (out : List ℕ) → e ≡ some out → e ≡ some (bytes e)
    shown none out h = absurd (cc h)
    shown (some o) out h = refl

    counted :
        (e : Option (List ℕ)) (out : List ℕ)
        → e ≡ some out
        → length out ≡ varint_len v
        → length (bytes e) ≡ varint_len v
    counted none out h n = absurd (cc h)
    counted (some o) out h n = ground (arith, h, n)

pub get_varint-Spells :
    (total i v room : ℕ)
    → v ≤ varint_max
    → varint_len v ≤ room
    → Spells total i get_varint (varint_bytes v room) v
unfolding Spells get_varint
get_varint-Spells total i v room small fits rest len =
    let (e, n) = varint_bytes-some v room small fits in
    let (q, m, le, pos) = length-encode v room (varint_bytes v room) e in
    front (varint_bytes v room) pos (decode-encode v room (varint_bytes v room) rest e)
  where
    front :
        (o : List ℕ)
        → 0 < length o
        → Varint.decode (o ++ rest) ≡ some (v, rest)
        → get_varint (o ++ rest) ≡ some (v, rest)
    front [] p d = absurd (omega arith)
    front (b ∷ bs) p d = d

-- A token that is there, all of it, or none.
pub get_data-Spells :
    (total i n : ℕ) (src : Option (List ℕ))
    → Carries n src
    → Spells total i (get_data n) (token_data n src) src
unfolding Spells get_data token_data
get_data-Spells total i n none e rest len = rw e refl
get_data-Spells total i n (some bytes) (e, pos) rest len =
    let whole : take n bytes ≡ bytes = take_all n bytes (omega (arith, e)) in
    let read =
      ap (λ (k : ℕ). get_bytes k (bytes ++ rest)) e
      ∙ get_bytes-Spells total i bytes rest (rw (positive n pos, whole) at len) in
    rw (positive n pos, whole, read, ◌>>=◌) refl
  where
    positive : (n : ℕ) → 0 < n → ltb 0 n ≡ true
    positive n h = ground arith

pub length-cid_bytes : (cid : ConnId) → IsCid cid → length (cid_bytes cid) ≡ 1 + cid.len
unfolding cid_bytes
length-cid_bytes cid h = omega (arith, length-take cid.len cid.bytes)

pub length-token_data :
    (n : ℕ) (src : Option (List ℕ)) → Carries n src → length (token_data n src) ≡ n
unfolding token_data
length-token_data n none e = omega (arith, e)
length-token_data n (some bytes) (e, pos) = ground (arith, e, pos, length-take n bytes)
