-- ===== src/WebSocket/RoundTrip.antt =====
-- Decoding an encoded WebSocket frame.
pub mod Length
use nxp.Prelude.{
  ℕ, zero, suc, ◌+◌, ◌-◌, ◌*◌, ◌/◌, ◌%◌, ◌^◌, ◌≤◌, ◌<◌, ◌≡◌, ◌∙◌, refl, sym, ap, subst, arith, List,
  [], ◌∷◌, ◌++◌, append_assoc, append-nil, Option, none, some, Bool, true, false, not, ◌==◌, ltb,
  leb, length, length-append, length-take, take, take_all, take-append, drop, drop-append, get_or,
  if◌then◌else◌, Bool-cases, inl, inr,
}
use nxp.Prelude.Bits.{bit_or-disjoint, mask_4, mask_7}
use nxp.Prelude.Masks.{bit_and_high}
use nxp.Prelude.Xor.{bit_xor_twice}
use nxp.Prelude.Word.{add64}
use nxp.Codec.{Parser, ◌>>=◌, pure, get_byte, get_bytes}
use nxp.Packet.Decode.{position}
use nxp.Packet.RoundTrip.Spells.{
  Spells, pure-Spells, pure_eq-Spells, >>=-Spells, get_byte-Spells, position_eq-Spells,
}
use nxp.Packet.RoundTrip.Fields.{get_first-Spells, unit-right}
use nxp.WebSocket.{
  WsFrame, apply_mask, mask_if, first_byte, length_bytes, header, encode, get_length, get_key,
  get_payload, read_rest, read_frame, decode,
}
use nxp.WebSocket.RoundTrip.Length.{
  flag_and_seven, seven, get_length-Spells, extended, length_bytes-split,
}
use Prim.Native.Nat.{bit_and, bit_or, bit_xor}

apply_mask_twice : (i : ℕ) (key bytes : List ℕ) → apply_mask i key (apply_mask i key bytes) ≡ bytes
unfolding apply_mask
apply_mask_twice i key [] = refl
apply_mask_twice i key (b ∷ bytes) =
    rw (bit_xor_twice b (get_or key (i % 4) 0), apply_mask_twice (suc i) key bytes) refl

length-apply_mask : (i : ℕ) (key bytes : List ℕ) → length (apply_mask i key bytes) ≡ length bytes
unfolding apply_mask
length-apply_mask i key [] = refl
length-apply_mask i key (b ∷ bytes) = omega (arith, length-apply_mask (suc i) key bytes)

length-mask_if :
    (masked : Bool) (key bytes : List ℕ) → length (mask_if masked key bytes) ≡ length bytes
unfolding mask_if
length-mask_if true key bytes = length-apply_mask 0 key bytes
length-mask_if false key bytes = refl

mask_if_twice :
    (masked : Bool) (key old bytes : List ℕ)
    → mask_if masked (if masked then key else old) (mask_if masked key bytes) ≡ bytes
unfolding mask_if
mask_if_twice true key old bytes = apply_mask_twice 0 key bytes
mask_if_twice false key old bytes = refl

-- A frame whose fields fit: a payload that is there, four bits of opcode, four bytes of key.
abbrev pub IsFrame : WsFrame → List ℕ → Type 0
IsFrame f bytes =
    (f.payload ≡ some bytes)
    × (length bytes ≡ f.payload_len)
    × (f.opcode < 16)
    × (length f.mask_key ≡ 4)

get_key-Spells :
    (total i : ℕ) (masked : Bool) (key old : List ℕ)
    → length key ≡ 4
    → Spells total i
        (get_key masked old)
        (if masked then take 4 key else [])
        (if masked then key else old)
unfolding get_key
get_key-Spells total i true key old h =
    let whole : take 4 key ≡ key = take_all 4 key (omega (arith, h)) in
    subst (λ v. Spells total i (get_bytes 4) (take 4 key) v) whole
      (get_first-Spells total i 4 key (omega (arith, h)))
get_key-Spells total i false key old h = pure-Spells total i old

get_payload-Spells :
    (total i j len : ℕ) (bytes : List ℕ)
    → i ≡ j
    → length bytes ≡ len
    → j + len < 2 ^ 64
    → Spells total i (get_payload total j len) bytes bytes
unfolding Spells get_payload
get_payload-Spells total i j len bytes e k h rest n =
    let fits : ltb total (add64 j len) ≡ false = ground (arith, n, h, e, k) in
    rw (fits, take-append len bytes rest (sym k), drop-append len bytes rest (sym k)) refl

-- The frame in the receiver's structure `old`: without a mask the key is the old one.
abbrev pub received : WsFrame → WsFrame → ℕ → WsFrame
received f old total = record f {
  mask_key = if f.masked then f.mask_key else old.mask_key;
  frame_total = total;
}

abbrev key_bytes : WsFrame → List ℕ
key_bytes f = if f.masked then take 4 f.mask_key else []

abbrev second_byte : WsFrame → ℕ
second_byte f = bit_or (if f.masked then 0x80 else 0x00) (seven f.payload_len)

abbrev body : WsFrame → List ℕ → List ℕ
body f bytes =
    first_byte f
    ∷ (second_byte f
        ∷ (extended f.payload_len ++ (key_bytes f ++ mask_if f.masked f.mask_key bytes)))

seven-lt : (n : ℕ) → seven n < 128
seven-lt n = ground arith

first_byte-flags :
    (f : WsFrame)
    → f.opcode < 16
    → (not (bit_and (first_byte f) 0x80 == 0) ≡ f.fin) × (bit_and (first_byte f) 0x0f ≡ f.opcode)
unfolding first_byte
first_byte-flags f h =
    let low : bit_and f.opcode 0x0f ≡ f.opcode = mask_4 f.opcode ∙ omega arith in
    rw low ((flag_and_seven f.fin f.opcode (omega arith)).0, opcode f.fin f.opcode h)
  where
    opcode :
        (fin : Bool) (op : ℕ) → op < 16 → bit_and (bit_or (if fin then 0x80 else 0x00) op) 0x0f ≡ op
    opcode true op h =
        let sum : bit_or 0x80 op ≡ 128 + op = bit_or-disjoint 4 8 op h in
        rw sum (mask_4 (128 + op) ∙ omega arith)
    opcode false op h =
        let sum : bit_or 0x00 op ≡ op = bit_or-disjoint 4 0 op h ∙ omega arith in
        rw sum (mask_4 op ∙ omega arith)

assembled :
    (f old : WsFrame) (payload : Option (List ℕ)) (n t total : ℕ)
    → payload ≡ f.payload
    → n ≡ f.payload_len
    → t ≡ total
    → record f {
      mask_key = if f.masked then f.mask_key else old.mask_key;
      payload_len = n;
      payload = payload;
      frame_total = t;
    }
      ≡ received f old total
assembled f old payload n t total e k h = rw (e, k, h) refl

read_rest-Spells :
    (total b0 b1 : ℕ) (f old : WsFrame) (bytes : List ℕ)
    → IsFrame f bytes
    → length (body f bytes) < 2 ^ 63
    → (not (bit_and b0 0x80 == 0) ≡ f.fin) × (bit_and b0 0x0f ≡ f.opcode)
    → (not (bit_and b1 0x80 == 0) ≡ f.masked) × (bit_and b1 0x7f ≡ seven f.payload_len)
    → Spells total 2
        (read_rest total old b0 b1)
        (extended f.payload_len ++ (key_bytes f ++ mask_if f.masked f.mask_key bytes))
        (received f old (length (body f bytes)))
unfolding read_rest
read_rest-Spells total b0 b1 f old bytes (there, n, op, key) small (fin, opcode) (masked, len) =
    let sent = mask_if f.masked f.mask_key bytes in
    let count : length sent ≡ f.payload_len = length-mask_if f.masked f.mask_key bytes ∙ n in
    let start = 2 + length (extended f.payload_len) + length (key_bytes f) in
    let whole : length (body f bytes) ≡ start + length sent = omega (
      arith,
      length-append (extended f.payload_len) (key_bytes f ++ sent),
      length-append (key_bytes f) sent,
    ) in
    let clear : some (mask_if f.masked (if f.masked then f.mask_key else old.mask_key) sent)
        ≡ f.payload =
      ap (λ (l : List ℕ). some l) (mask_if_twice f.masked f.mask_key old.mask_key bytes)
      ∙ sym there in
    let result =
      assembled f old _ f.payload_len (add64 start f.payload_len) (length (body f bytes)) clear refl
        (omega (arith, whole, small, count)) in
    rw (fin, opcode, masked, len)
      (>>=-Spells _ _ _ _ _ _ _ _
        (get_length-Spells total 2 f.payload_len (omega (arith, whole, small, count)))
        (>>=-Spells _ _ _ _ _ _ _ _ (get_key-Spells _ _ f.masked f.mask_key old.mask_key key) (
          >>=-Spells _ _ _ _ [] _ _ _ (position_eq-Spells _ _ start (omega arith)) (
            unit-right _ _ _ _ _ (
              >>=-Spells _ _ _ _ _ [] _ _
                (get_payload-Spells total _ start f.payload_len sent (omega arith) count
                  (omega (arith, whole, small, count)))
                (pure_eq-Spells _ _ _ _ result))))))

read_frame-Spells :
    (total : ℕ) (f old : WsFrame) (bytes : List ℕ)
    → IsFrame f bytes
    → length (body f bytes) < 2 ^ 63
    → Spells total 0 (read_frame total old) (body f bytes) (received f old (length (body f bytes)))
unfolding read_frame
read_frame-Spells total f old bytes ok small =
    >>=-Spells _ _ _ _ (first_byte f ∷ []) _ _ _ (get_byte-Spells total 0 (first_byte f)) (
      >>=-Spells _ _ _ _ (second_byte f ∷ []) _ _ _ (get_byte-Spells _ _ (second_byte f)) (
        read_rest-Spells total (first_byte f) (second_byte f) f old bytes ok small
          (first_byte-flags f (ok.2))
          (flag_and_seven f.masked (seven f.payload_len) (seven-lt f.payload_len))))

no_bytes : (l : List ℕ) → length l ≡ 0 → l ≡ []
no_bytes [] h = refl
no_bytes (b ∷ l) h = absurd (omega (arith, h))

encode-inv :
    (f : WsFrame) (bytes out : List ℕ) (buf_cap : ℕ)
    → f.payload ≡ some bytes
    → length bytes ≡ f.payload_len
    → encode f buf_cap ≡ some out
    → out ≡ header f ++ mask_if f.masked f.mask_key bytes
unfolding encode
encode-inv f bytes out buf_cap there n e = elim (Bool-cases (ltb 0 f.payload_len)) [
  | inl full ↦
      let whole : take f.payload_len bytes ≡ bytes =
        take_all f.payload_len bytes (omega (arith, n)) in
      let written : out ≡ header f ++ mask_if f.masked f.mask_key (take f.payload_len bytes) =
        ground (arith, rw (there, full) at e) in
      written ∙ ap (λ (l : List ℕ). header f ++ mask_if f.masked f.mask_key l) whole
  | inr bare ↦
      let written : out ≡ header f = ground (arith, rw (there, bare) at e) in
      let nothing =
        no_bytes (mask_if f.masked f.mask_key bytes)
          (length-mask_if f.masked f.mask_key bytes ∙ n ∙ ground (arith, bare)) in
      written ∙ sym (append-nil (header f)) ∙ ap (λ (l : List ℕ). header f ++ l) (sym nothing)
]

header-body :
    (f : WsFrame) (bytes : List ℕ) → header f ++ mask_if f.masked f.mask_key bytes ≡ body f bytes
unfolding header
header-body f bytes =
    ap (λ (l : List ℕ). (first_byte f ∷ (l ++ key_bytes f)) ++ mask_if f.masked f.mask_key bytes)
      (length_bytes-split f.masked f.payload_len)
    ∙ ap (λ (l : List ℕ). first_byte f ∷ second_byte f ∷ l)
        (append_assoc (extended f.payload_len) (key_bytes f) (mask_if f.masked f.mask_key bytes))

decodes :
    (f old : WsFrame) (bytes rest : List ℕ)
    → IsFrame f bytes
    → length (body f bytes) < 2 ^ 63
    → decode old (body f bytes ++ rest) ≡ some (received f old (length (body f bytes)))
unfolding decode Spells
decodes f old bytes rest ok small =
    let count = length-append (body f bytes) rest in
    let read =
      read_frame-Spells (length (body f bytes ++ rest)) f old bytes ok small rest
        (omega (arith, count)) in
    rw (long (length (body f bytes ++ rest)) (omega arith), read) refl
  where
    long : (n : ℕ) → 2 ≤ n → ltb n 2 ≡ false
    long n h = ground arith

-- An encoded frame is decoded to the frame, its payload unmasked, whatever stands behind it in the
-- buffer, and the length reported is the length written: for every payload length and mask. Without a
-- mask the key is the one that the receiver's structure held before.
pub decode-encode :
    (f old : WsFrame) (bytes out rest : List ℕ) (buf_cap : ℕ)
    → IsFrame f bytes
    → encode f buf_cap ≡ some out
    → length out < 2 ^ 63
    → decode old (out ++ rest) ≡ some (received f old (length out))
decode-encode f old bytes out rest buf_cap ok e small =
    let same = encode-inv f bytes out buf_cap (ok.0) (ok.1) e ∙ header-body f bytes in
    rw same (decodes f old bytes rest ok (rw same at small))
