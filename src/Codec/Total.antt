-- ===== src/Codec/Total.antt =====
-- When a writer succeeds: it needs no more room than its bound.
use nxp.Prelude.{
  ℕ, ◌+◌, ◌-◌, ◌≤◌, ◌<◌, ◌^◌, ◌≡◌, refl, arith, List, [], ◌∷◌, ◌++◌, Option, some, false, leb,
  length, length-append, length-drop, drop,
}
use nxp.Varint
use nxp.Varint.{varint_max, varint_len}
use nxp.Varint.Shape.{encode_total, length-encode}
use nxp.Codec.{
  Cursor, buf_len, Writer, ◌>>◌, skip, advance, put_varint, put_byte, put_data, source_bytes, run,
}
use nxp.Codec.Laws.{
  Fits, Moves, Moves-trans, IsBounded, put_varint-IsBounded, put_data-IsBounded, Readable,
}

-- With `n` bytes of room `w` succeeds, and moves inside the buffer.
unfoldable pub Writes : ℕ → Writer → Type 0
Writes n w =
    (c : Cursor)
    → Fits c
    → n ≤ length c.room
    → (out : List ℕ) × (c' : Cursor) × (w c ≡ some (out, c')) × Moves c out c' × (length out ≤ n)

pub skip-Writes : Writes 0 skip
unfolding Writes
skip-Writes c fits h = ([], c, refl, (omega arith, omega arith), omega arith)

pub >>-Writes : (n m : ℕ) (v w : Writer) → Writes n v → Writes m w → Writes (n + m) (v >> w)
unfolding Writes
>>-Writes n m v w hv hw c fits h =
    let (o1, c1, e1, m1, n1) = hv c fits (omega arith) in
    let (o2, c2, e2, m2, n2) = hw c1 (omega arith) (omega arith) in
    (
      o1 ++ o2,
      c2,
      rw (e1, e2, ◌>>◌),
      Moves-trans c o1 c1 o2 c2 m1 m2,
      omega (arith, length-append o1 o2),
    )

pub more : (n m : ℕ) (w : Writer) → n ≤ m → Writes n w → Writes m w
unfolding Writes
more n m w le h c fits room =
    let (o, c1, e, mv, k) = h c fits (omega arith) in (o, c1, e, mv, omega arith)

pub put_byte-Writes : (b : ℕ) → Writes 1 (put_byte b)
unfolding Writes put_byte advance
put_byte-Writes b c fits h =
    (b ∷ [], (advance (b ∷ []) c).1, ground arith, omega (arith, length-drop 1 c.room), omega arith)

varint_len-le : (v : ℕ) → varint_len v ≤ 8
unfolding varint_len
varint_len-le v = ground arith

put_varint-some :
    (v : ℕ) (c : Cursor) (out : List ℕ)
    → Varint.encode v (length c.room) ≡ some out
    → 0 < length c.room
    → put_varint v c ≡ some (advance out c)
unfolding put_varint
put_varint-some v c out e pos =
    let n : buf_len c - c.pos ≡ length c.room = omega arith in rw (not_full c pos, n, e)
  where
    not_full : (c : Cursor) → 0 < length c.room → leb (buf_len c) c.pos ≡ false
    not_full c h = ground arith

pub put_varint-Writes : (v : ℕ) → v ≤ varint_max → Writes 8 (put_varint v)
unfolding Writes IsBounded advance
put_varint-Writes v small c fits h =
    let (out, e) = encode_total v (length c.room) small (omega (arith, varint_len-le v)) in
    let written = put_varint-some v c out e (omega arith) in
    let len = length-encode v (length c.room) out e in
    (
      out,
      (advance out c).1,
      written,
      put_varint-IsBounded v c out (advance out c).1 fits written,
      omega (arith, len, varint_len-le v),
    )

pub put_data-Writes :
    (src : Option (List ℕ)) (n : ℕ) → n < 2 ^ 62 → Readable src n → Writes n (put_data src n)
unfolding Writes IsBounded advance
put_data-Writes src n small ok c fits h =
    let written : put_data src n c
        ≡ some (source_bytes src n c.room, record { pos = c.pos + n; room = drop n c.room }) =
      fitting src n c fits small h in
    let moved = put_data-IsBounded src n (omega arith) ok c _ _ fits written in
    (_, _, written, moved, omega (arith, moved, length-drop n c.room))
  where
    fitting :
        (src : Option (List ℕ)) (n : ℕ) (c : Cursor)
        → Fits c
        → n < 2 ^ 62
        → n ≤ length c.room
        → put_data src n c
          ≡ some (source_bytes src n c.room, record { pos = c.pos + n; room = drop n c.room })
    fitting src n c fits small h = unfold put_data in ground arith

-- An encoder that is called on a buffer with room for its bound.
pub run_total :
    (n : ℕ) (w : Writer) (buf : List ℕ)
    → Writes n w
    → length buf < 2 ^ 63
    → n ≤ length buf
    → (out : List ℕ) × (run w buf ≡ some out)
unfolding run Writes
run_total n w buf h fits room =
    let (out, c', e, m, k) = h (record { pos = 0; room = buf }) (omega arith) room in
    (out, rw (e, run))
