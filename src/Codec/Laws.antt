-- ===== src/Codec/Laws.antt =====
-- Laws of readers and writers, and what it means that a reader reads back what a writer wrote.
use nxp.Prelude.{
  ℕ, ◌+◌, ◌-◌, ◌≤◌, ◌<◌, ◌^◌, ◌≡◌, ◌∙◌, refl, arith, List, [], ◌∷◌, ◌++◌, append_assoc, Option,
  none, some, length, take, drop, length-append, length-take, length-drop, take-append, drop-append,
  take_all, Option-cases, inl, inr,
}
use nxp.Varint
use nxp.Varint.{varint_max}
use nxp.Varint.RoundTrip.{decode-encode}
use nxp.Varint.Shape.{length-encode, encode_small}
use nxp.Codec.{
  Parser, ◌>>=◌, pure, get_varint, get_byte, get_bytes, get_data, Cursor, buf_len, Writer, ◌>>◌,
  skip, advance, put_varint, put_byte, source_bytes, put_data, run,
}

-- A buffer that can exist: sizes of objects stay below 2 ^ 63.
abbrev pub Fits : Cursor → Type 0
Fits c = buf_len c < 2 ^ 63

-- The cursor moves over the bytes written, inside the buffer.
abbrev pub Moves : Cursor → List ℕ → Cursor → Type 0
Moves c out c' = (c'.pos ≡ c.pos + length out) × (buf_len c' ≡ buf_len c)

unfoldable pub IsBounded : Writer → Type 0
IsBounded w =
    (c : Cursor) (out : List ℕ) (c' : Cursor) → Fits c → w c ≡ some (out, c') → Moves c out c'

-- Wherever `w` succeeds, `p` reads `a` back from what it wrote, and leaves what follows.
unfoldable pub Reads {ℓ} : {A : Type ℓ} → Parser A → Writer → A → Type ℓ
Reads p w a =
    (c : Cursor) (out : List ℕ) (c' : Cursor) (rest : List ℕ)
    → Fits c
    → w c ≡ some (out, c')
    → (p (out ++ rest) ≡ some (a, rest)) × Moves c out c'

-- Inversion of a sequence of two writers.
pub >>-inv :
    (v w : Writer) (c : Cursor) {out : List ℕ} {c' : Cursor}
    → (v >> w) c ≡ some (out, c')
    → (o1 : List ℕ) × (c1 : Cursor) × (o2 : List ℕ) × (v c ≡ some (o1, c1))
      × (w c1 ≡ some (o2, c'))
      × (out ≡ o1 ++ o2)
>>-inv v w c {out} {c'} h = elim (Option-cases (v c)) [
  | inl e ↦ ground (arith, e, h)
  | inr ((o1, c1), e) ↦ elim (Option-cases (w c1)) [
    | inl e2 ↦ ground (arith, e, e2, h)
    | inr ((o2, c2), e2) ↦ (o1, c1, o2, e, ground (arith, e, e2, h), ground (arith, e, e2, h))
  ]
]

pub Moves-trans :
    (c : Cursor) (o1 : List ℕ) (c1 : Cursor) (o2 : List ℕ) (c2 : Cursor)
    → Moves c o1 c1
    → Moves c1 o2 c2
    → Moves c (o1 ++ o2) c2
Moves-trans c o1 c1 o2 c2 m n = omega (arith, length-append o1 o2)

pub >>-IsBounded : (v w : Writer) → IsBounded v → IsBounded w → IsBounded (v >> w)
unfolding IsBounded
>>-IsBounded v w hv hw c out c' fits h =
    let (o1, c1, o2, e1, e2, e) = >>-inv v w c h in
    let m1 = hv c o1 c1 fits e1 in
    let m2 = hw c1 o2 c' (omega arith) e2 in rw e (Moves-trans c o1 c1 o2 c' m1 m2)

>>=-some {ℓ κ} :
    {A : Type ℓ} {B : Type κ} (p : Parser A) (k : A → Parser B) (l : List ℕ) {a : A} {r : List ℕ}
    → p l ≡ some (a, r)
    → (p >>= k) l ≡ k a r
>>=-some p k l h = rw (h, ◌>>=◌)

-- A reader in two parts reads a writer in two parts.
pub >>-Reads {ℓ κ} :
    {A : Type ℓ} {B : Type κ} (p : Parser A) (v : Writer) (a : A) (k : A → Parser B) (w : Writer)
    (b : B)
    → Reads p v a
    → Reads (k a) w b
    → Reads (p >>= k) (v >> w) b
unfolding Reads
>>-Reads p v a k w b hp hk c out c' rest fits h =
    let (o1, c1, o2, e1, e2, e) = >>-inv v w c h in
    let (r1, m1) = hp c o1 c1 (o2 ++ rest) fits e1 in
    let (r2, m2) = hk c1 o2 c' rest (omega arith) e2 in
    rw (e, append_assoc o1 o2 rest)
      (>>=-some p k (o1 ++ (o2 ++ rest)) r1 ∙ r2, Moves-trans c o1 c1 o2 c' m1 m2)

pub pure-Reads {ℓ} : {A : Type ℓ} (a : A) → Reads (pure a) skip a
unfolding Reads
pure-Reads a c out c' rest fits h = ground arith

pub pure_eq-Reads {ℓ} : {A : Type ℓ} (a b : A) → a ≡ b → Reads (pure a) skip b
pure_eq-Reads a b e = rw e (pure-Reads b)

pub skip-IsBounded : IsBounded skip
unfolding IsBounded
skip-IsBounded c out c' fits h = ground arith

-- The cursor after some bytes that fit.
advance-Moves :
    (c : Cursor) (out : List ℕ)
    → length out ≤ length c.room
    → Moves c (advance out c).0 (advance out c).1
unfolding advance
advance-Moves c out h = omega (arith, length-drop (length out) c.room)

-- What a successful `put_varint` has done.
put_varint-inv :
    (v : ℕ) (c : Cursor) {out : List ℕ} {c' : Cursor}
    → put_varint v c ≡ some (out, c')
    → (Varint.encode v (length c.room) ≡ some out) × (c' ≡ (advance out c).1) × (0 < length c.room)
unfolding put_varint
put_varint-inv v c {out} {c'} h = elim (Option-cases (Varint.encode v (buf_len c - c.pos))) [
  | inl e ↦ ground (arith, e, h)
  | inr (o, e) ↦
      let n : buf_len c - c.pos ≡ length c.room = omega arith in
      let (s, q, r) = found o e in (rw (n, s) at e, q, r)
]
  where
    found :
        (o : List ℕ)
        → Varint.encode v (buf_len c - c.pos) ≡ some o
        → (o ≡ out) × (c' ≡ (advance out c).1) × (0 < length c.room)
    found o e = ground (arith, e, h)

pub put_varint-Reads : (v : ℕ) → Reads get_varint (put_varint v) v
unfolding Reads get_varint advance
put_varint-Reads v c out c' rest fits h =
    let (e, q, room) = put_varint-inv v c h in
    let (small, n, le, pos) = length-encode v (length c.room) out e in
    (front out pos (decode-encode v (length c.room) out rest e), rw q (advance-Moves c out le))
  where
    front :
        (o : List ℕ)
        → 0 < length o
        → Varint.decode (o ++ rest) ≡ some (v, rest)
        → get_varint (o ++ rest) ≡ some (v, rest)
    front [] p d = absurd (omega arith)
    front (b ∷ bs) p d = d

pub put_varint-IsBounded : (v : ℕ) → IsBounded (put_varint v)
unfolding IsBounded advance
put_varint-IsBounded v c out c' fits h =
    let (e, q, room) = put_varint-inv v c h in
    let (small, n, le, pos) = length-encode v (length c.room) out e in rw q (advance-Moves c out le)

-- After a length has been written, what follows may rely on its bound.
pub put_varint->>-IsBounded :
    (v : ℕ) (w : Writer) → (v ≤ varint_max → IsBounded w) → IsBounded (put_varint v >> w)
unfolding IsBounded
put_varint->>-IsBounded v w hw c out c' fits h =
    let (o1, c1, o2, e1, e2, e) = >>-inv (put_varint v) w c h in
    let (enc, q, room) = put_varint-inv v c e1 in
    let (small, n, le, pos) = length-encode v (length c.room) o1 enc in
    >>-IsBounded (put_varint v) w (put_varint-IsBounded v) (hw small) c out c' fits h

-- A frame's type is one byte.
pub put_type-byte :
    (t : ℕ) (c : Cursor) (out : List ℕ) (c' : Cursor)
    → t ≤ 63
    → put_varint t c ≡ some (out, c')
    → out ≡ t ∷ []
put_type-byte t c out c' small h =
    let (e, q, room) = put_varint-inv t c h in encode_small t (length c.room) out small e

pub put_byte-Reads : (b : ℕ) → Reads get_byte (put_byte b) b
unfolding Reads get_byte put_byte advance
put_byte-Reads b c out c' rest fits h = ground (arith, length-drop 1 c.room)

pub put_byte-out :
    (b : ℕ) (c : Cursor) (out : List ℕ) (c1 : Cursor) → put_byte b c ≡ some (out, c1) → out ≡ b ∷ []
unfolding put_byte advance
put_byte-out b c out c1 h = ground arith

pub put_byte-IsBounded : (b : ℕ) → IsBounded (put_byte b)
unfolding IsBounded put_byte advance
put_byte-IsBounded b c out c' fits h = ground (arith, length-drop 1 c.room)

-- Bytes of which `n` may be read, or a null pointer.
abbrev pub Readable : Option (List ℕ) → ℕ → Type 0
Readable none n = Unit {0}
Readable (some bytes) n = n ≤ length bytes

length-source_bytes :
    (src : Option (List ℕ)) (n : ℕ) (old : List ℕ)
    → Readable src n
    → n ≤ length old
    → length (source_bytes src n old) ≡ n
unfolding source_bytes
length-source_bytes none n old h k = omega (arith, length-take n old)
length-source_bytes (some bytes) n old h k = omega (arith, length-take n bytes)

-- What a successful `put_data` of fewer than 2 ^ 63 bytes has done: the sum has not wrapped.
put_data-inv :
    (src : Option (List ℕ)) (n : ℕ) (c : Cursor) {out : List ℕ} {c' : Cursor}
    → Fits c
    → n < 2 ^ 63
    → put_data src n c ≡ some (out, c')
    → (out ≡ source_bytes src n c.room)
      × (c' ≡ record { pos = c.pos + n; room = drop n c.room })
      × (n ≤ length c.room)
unfolding put_data
put_data-inv src n c {out} {c'} fits small h = ground arith

pub put_data-IsBounded :
    (src : Option (List ℕ)) (n : ℕ) → n < 2 ^ 63 → Readable src n → IsBounded (put_data src n)
unfolding IsBounded
put_data-IsBounded src n small ok c out c' fits h =
    let (e, q, room) = put_data-inv src n c fits small h in
    let len = length-source_bytes src n c.room ok room in
    rw (e, q) (omega (arith, len, length-drop n c.room))

-- The first `n` bytes of a longer memory, as `memcpy` takes them.
pub put_data-Reads :
    (bytes : List ℕ) (n : ℕ)
    → n ≤ length bytes
    → n < 2 ^ 63
    → Reads (get_bytes n) (put_data (some bytes) n) (take n bytes)
unfolding Reads get_bytes source_bytes
put_data-Reads bytes n len small c out c' rest fits h =
    let (e, q, room) = put_data-inv (some bytes) n c fits small h in
    let taken = length-take n bytes in
    (
      rw e (
          ground (
            arith,
            taken,
            length-append (take n bytes) rest,
            take-append n (take n bytes) rest (omega (arith, taken)),
            drop-append n (take n bytes) rest (omega (arith, taken)),
          )),
      rw (e, q) (omega (arith, taken, length-drop n c.room)),
    )

-- How many bytes a successful copy has written.
pub length-put_data :
    (bytes : List ℕ) (n : ℕ) (c : Cursor) (out : List ℕ) (c' : Cursor)
    → n ≤ length bytes
    → n < 2 ^ 63
    → Fits c
    → put_data (some bytes) n c ≡ some (out, c')
    → length out ≡ n
unfolding source_bytes
length-put_data bytes n c out c' len small fits h =
    let (e, q, room) = put_data-inv (some bytes) n c fits small h in
    rw e (omega (arith, length-take n bytes))

-- A field of `n` bytes as the reader gives it back: null where it is empty.
abbrev pub Carries : ℕ → Option (List ℕ) → Type 0
Carries n none = n ≡ 0
Carries n (some bytes) = (n ≡ length bytes) × (0 < n)

pub get_data-Reads :
    (src : Option (List ℕ)) (n : ℕ)
    → n < 2 ^ 63
    → Carries n src
    → Reads (get_data n) (put_data src n) src
unfolding Reads get_data source_bytes
get_data-Reads none n small e c out c' rest fits h =
    let (o, q, room) = put_data-inv none n c fits small h in
    rw (o, q, e) (refl, (omega arith, omega arith))
get_data-Reads (some bytes) n small (len, pos) c out c' rest fits h =
    let (r, m) = put_data-Reads bytes n (omega (arith, len)) small c out c' rest fits h in
    (ground (arith, r, take_all n bytes (omega (arith, len))), m)

-- A writer that only checks, in front of another.
pub check->>-Reads {ℓ} :
    {A : Type ℓ} (v : Writer) (p : Parser A) (w : Writer) (a : A)
    → ((c : Cursor) (o : List ℕ) (c1 : Cursor) → v c ≡ some (o, c1) → (o ≡ []) × (c1 ≡ c))
    → Reads p w a
    → Reads p (v >> w) a
unfolding Reads
check->>-Reads v p w a only r c out c' rest fits h =
    let (o1, c1, o2, e1, e2, e) = >>-inv v w c h in
    let (q1, q2) = only c o1 c1 e1 in r c out c' rest fits (rw (e, q1) (rw q2 at e2))

-- An encoder that is called on a whole buffer.
pub run-bounded :
    (w : Writer) (buf out : List ℕ)
    → IsBounded w
    → length buf < 2 ^ 63
    → run w buf ≡ some out
    → length out ≤ length buf
unfolding run IsBounded
run-bounded w buf out b fits h = elim (Option-cases (w (record { pos = 0; room = buf }))) [
  | inl e ↦ ground (arith, e, h)
  | inr ((o, c'), e) ↦ ground (arith, e, h, b (record { pos = 0; room = buf }) o c' (omega arith) e)
]

pub run-Reads {ℓ} :
    {A : Type ℓ} (p : Parser A) (w : Writer) (a : A) (buf out rest : List ℕ)
    → Reads p w a
    → length buf < 2 ^ 63
    → run w buf ≡ some out
    → p (out ++ rest) ≡ some (a, rest)
unfolding run Reads
run-Reads p w a buf out rest r fits h = elim (Option-cases (w (record { pos = 0; room = buf }))) [
  | inl e ↦ absurd (ground (arith, e, h))
  | inr ((o, c'), e) ↦
      let same : o ≡ out = ground (arith, e, h) in
      rw same at ((r (record { pos = 0; room = buf }) o c' rest (omega arith) e).0)
]
