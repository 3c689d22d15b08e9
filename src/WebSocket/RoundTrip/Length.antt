-- ===== src/WebSocket/RoundTrip/Length.antt =====
-- The length of a WebSocket frame, in its 7, 16 or 64 bits.
use nxp.Prelude.{
  ℕ, ◌+◌, ◌*◌, ◌/◌, ◌%◌, ◌^◌, ◌≤◌, ◌<◌, ◌≡◌, ◌∙◌, refl, sym, ap, arith, List, [], ◌∷◌, ◌++◌, Bool,
  true, false, not, ◌==◌, leb, if◌then◌else◌, Bool-cases, inl, inr,
}
use nxp.Prelude.Bits.{bit_or-disjoint, mask_7}
use nxp.Prelude.Masks.{bit_and_high}
use nxp.Codec.{◌>>=◌, get_byte, get_bytes}
use nxp.Packet.Encode.{pn_bytes}
use nxp.Packet.Decode.{pn_value}
use nxp.Packet.RoundTrip.Spells.{Spells, pure-Spells, get_bytes-Spells}
use nxp.Packet.RoundTrip.Fields.{pn_value_step, length-pn_bytes}
use nxp.WebSocket.{length_bytes, get_length, get_u16, get_extended}
use Prim.Native.Nat.{bit_and, bit_or}

-- A flag in the highest bit of a byte, over seven bits.
pub flag_and_seven :
    (flag : Bool) (x : ℕ)
    → x < 128
    → let b = bit_or (if flag then 0x80 else 0x00) x in
      (not (bit_and b 0x80 == 0) ≡ flag) × (bit_and b 0x7f ≡ x)
flag_and_seven true x h =
    let sum : bit_or 0x80 x ≡ 128 + x = bit_or-disjoint 7 1 x h in
    let high : bit_and (128 + x) 0x80 ≡ 128 =
      bit_and_high 7 1 (128 + x) (omega arith) ∙ omega arith in
    rw sum (ground (arith, high), mask_7 (128 + x) ∙ omega arith)
flag_and_seven false x h =
    let sum : bit_or 0x00 x ≡ x = bit_or-disjoint 7 0 x h ∙ omega arith in
    let high : bit_and x 0x80 ≡ 0 = bit_and_high 7 1 x (omega arith) ∙ omega arith in
    rw sum (ground (arith, high), mask_7 x ∙ omega arith)

-- The seven bits of the second byte, and the bytes behind it.
abbrev pub seven : ℕ → ℕ
seven p_len = if leb p_len 125 then p_len else if leb p_len 65535 then 126 else 127

abbrev pub extended : ℕ → List ℕ
extended p_len =
    if leb p_len 125
    then []
    else if leb p_len 65535
    then (p_len / 2 ^ 8 % 256) ∷ (p_len % 256) ∷ []
    else pn_bytes 8 p_len

pub length_bytes-split :
    (masked : Bool) (p_len : ℕ)
    → length_bytes masked p_len
      ≡ bit_or (if masked then 0x80 else 0x00) (seven p_len) ∷ extended p_len
unfolding length_bytes
length_bytes-split masked p_len = elim (Bool-cases (leb p_len 125)) [
  | inl small ↦ let whole : p_len % 256 ≡ p_len = ground (arith, small) in rw (small, whole) refl
  | inr large ↦ elim (Bool-cases (leb p_len 65535)) [
    | inl middle ↦ rw (large, middle) refl
    | inr huge ↦ rw (large, huge) refl
  ]
]

joined_8 :
    (v : ℕ)
    → v < 2 ^ 64
    → ((((((((0 * 256 + v / 2 ^ 56 % 256) * 256 + v / 2 ^ 48 % 256) * 256 + v / 2 ^ 40 % 256) * 256
                        + v / 2 ^ 32 % 256)
                      * 256
                    + v / 2 ^ 24 % 256)
                  * 256
                + v / 2 ^ 16 % 256)
              * 256
            + v / 2 ^ 8 % 256)
          * 256
        + v / 2 ^ 0 % 256)
      ≡ v
joined_8 v h = omega arith

-- Eight bytes carry a 64-bit number.
pn_value-pn_bytes_8 : (v : ℕ) → v < 2 ^ 64 → pn_value 0 (pn_bytes 8 v) ≡ v
unfolding pn_bytes pn_value
pn_value-pn_bytes_8 v h =
    pn_value_step 0 (v / 2 ^ 56 % 256) (pn_bytes 7 v) (omega arith)
    ∙ pn_value_step (0 * 256 + v / 2 ^ 56 % 256) (v / 2 ^ 48 % 256) (pn_bytes 6 v) (omega arith)
    ∙ pn_value_step ((0 * 256 + v / 2 ^ 56 % 256) * 256 + v / 2 ^ 48 % 256) (v / 2 ^ 40 % 256)
        (pn_bytes 5 v) (omega arith)
    ∙ pn_value_step
        (((0 * 256 + v / 2 ^ 56 % 256) * 256 + v / 2 ^ 48 % 256) * 256 + v / 2 ^ 40 % 256)
        (v / 2 ^ 32 % 256) (pn_bytes 4 v) (omega arith)
    ∙ pn_value_step
        ((((0 * 256 + v / 2 ^ 56 % 256) * 256 + v / 2 ^ 48 % 256) * 256 + v / 2 ^ 40 % 256) * 256
          + v / 2 ^ 32 % 256)
        (v / 2 ^ 24 % 256) (pn_bytes 3 v) (omega arith)
    ∙ pn_value_step
        (((((0 * 256 + v / 2 ^ 56 % 256) * 256 + v / 2 ^ 48 % 256) * 256 + v / 2 ^ 40 % 256) * 256
              + v / 2 ^ 32 % 256)
            * 256
          + v / 2 ^ 24 % 256)
        (v / 2 ^ 16 % 256) (pn_bytes 2 v) (omega arith)
    ∙ pn_value_step
        ((((((0 * 256 + v / 2 ^ 56 % 256) * 256 + v / 2 ^ 48 % 256) * 256 + v / 2 ^ 40 % 256) * 256
                  + v / 2 ^ 32 % 256)
                * 256
              + v / 2 ^ 24 % 256)
            * 256
          + v / 2 ^ 16 % 256)
        (v / 2 ^ 8 % 256) (pn_bytes 1 v) (omega arith)
    ∙ pn_value_step
        (((((((0 * 256 + v / 2 ^ 56 % 256) * 256 + v / 2 ^ 48 % 256) * 256 + v / 2 ^ 40 % 256) * 256
                      + v / 2 ^ 32 % 256)
                    * 256
                  + v / 2 ^ 24 % 256)
                * 256
              + v / 2 ^ 16 % 256)
            * 256
          + v / 2 ^ 8 % 256)
        (v / 2 ^ 0 % 256) (pn_bytes 0 v) (omega arith)
    ∙ joined_8 v h

u16_joined : (v : ℕ) → v ≤ 65535 → bit_or (v / 2 ^ 8 % 256 * 2 ^ 8) (v % 256) ≡ v
u16_joined v h = bit_or-disjoint 8 (v / 2 ^ 8 % 256) (v % 256) (omega arith) ∙ omega arith

get_u16-Spells :
    (total i v : ℕ) → v ≤ 65535 → Spells total i get_u16 ((v / 2 ^ 8 % 256) ∷ (v % 256) ∷ []) v
unfolding Spells get_u16 get_byte
get_u16-Spells total i v h rest len = rw (u16_joined v h) refl

get_extended-Spells : (total i v : ℕ) → v < 2 ^ 64 → Spells total i get_extended (pn_bytes 8 v) v
unfolding Spells get_extended
get_extended-Spells total i v h rest len =
    let bytes = get_bytes-Spells total i (pn_bytes 8 v) rest len in
    rw
      (
        ap (λ (k : ℕ). get_bytes k (pn_bytes 8 v ++ rest)) (sym (length-pn_bytes 8 v)) ∙ bytes,
        pn_value-pn_bytes_8 v h,
        ◌>>=◌,
      )
      refl

pub get_length-Spells :
    (total i p_len : ℕ)
    → p_len < 2 ^ 64
    → Spells total i (get_length (seven p_len)) (extended p_len) p_len
unfolding get_length
get_length-Spells total i p_len h = elim (Bool-cases (leb p_len 125)) [
  | inl small ↦
      let short : (p_len == 126) ≡ false = ground (arith, small) in
      let short2 : (p_len == 127) ≡ false = ground (arith, small) in
      rw (small, short, short2) (pure-Spells total i p_len)
  | inr large ↦ elim (Bool-cases (leb p_len 65535)) [
    | inl middle ↦ rw (large, middle) (get_u16-Spells total i p_len (ground (arith, middle)))
    | inr huge ↦ rw (large, huge) (get_extended-Spells total i p_len h)
  ]
]
