-- ===== src/Stream/Content.antt =====
-- What the buffers of a stream hold: the bytes of the stream at their offsets. `content` gives the byte
-- that the sender writes at each offset.
use nxp.Prelude.{
  ℕ, zero, suc, ◌+◌, ◌-◌, ◌%◌, ◌≤◌, ◌<◌, ◌≡◌, ◌⊎◌, ap, subst, ◌∙◌, arith, List, [], ◌∷◌, some, ltb,
  leb, if◌then◌else◌, length, get_or, take, drop, Bool-cases, inl, inr, max,
}
use nxp.Circular.{Array, copy_in, copied, copy_out}
use nxp.Circular.Content.{
  Agrees, get_or-Agrees, get_or_beyond, around, copy_in_slot, copy_out-Agrees,
}
use nxp.Stream.{stream_buf_size}

-- The buffer holds the bytes of the stream from `lo` up to `hi`.
abbrev pub Holds : (ℕ → ℕ) → Array → ℕ → ℕ → Type 0
Holds content a lo hi = (o : ℕ) → lo ≤ o → o < hi → a (o % stream_buf_size) ≡ content o

pub Agrees-take :
    (s : ℕ → ℕ) (off n : ℕ) (bytes : List ℕ) → Agrees s off bytes → Agrees s off (take n bytes)
Agrees-take s off zero bytes h = tt
Agrees-take s off (suc n) [] h = tt
Agrees-take s off (suc n) (b ∷ bytes) h = (h.0, Agrees-take s (suc off) n bytes h.1)

pub Agrees-drop :
    (s : ℕ → ℕ) (off n : ℕ) (bytes : List ℕ)
    → Agrees s off bytes
    → Agrees s (off + n) (drop n bytes)
Agrees-drop s off zero bytes h = subst (λ o. Agrees s o bytes) (omega arith) h
Agrees-drop s off (suc n) [] h = tt
Agrees-drop s off (suc n) (b ∷ bytes) h =
    subst (λ o. Agrees s o (drop n bytes)) (omega arith) (Agrees-drop s (suc off) n bytes h.1)

around_in :
    (off o : ℕ)
    → off ≤ o
    → o < off + stream_buf_size
    → around stream_buf_size (off % stream_buf_size) (o % stream_buf_size) ≡ o - off
around_in off o h0 h1 = ground arith

around_out :
    (off o n : ℕ)
    → (o < off) ⊎ (off + n ≤ o)
    → off + n ≤ o + stream_buf_size
    → o < off + stream_buf_size
    → n ≤ around stream_buf_size (off % stream_buf_size) (o % stream_buf_size)
around_out off o n h0 h1 h2 = ground arith

in_or_out : (off n o : ℕ) → ((off ≤ o) × (o < off + n)) ⊎ ((o < off) ⊎ (off + n ≤ o))
in_or_out off n o = elim (Bool-cases (leb off o)) [
  | inl above ↦ elim (Bool-cases (ltb o (off + n))) [
    | inl below ↦ inl (ground (arith, above), ground (arith, below))
    | inr past ↦ inr (inr (ground (arith, past)))
  ]
  | inr under ↦ inr (inl (ground (arith, under)))
]

-- Bytes of the stream that are copied in next to, or over, what the buffer holds, within one turn.
pub copied-Holds :
    (content : ℕ → ℕ) (a : Array) (lo hi off : ℕ) (bytes : List ℕ)
    → Holds content a lo hi
    → Agrees content off bytes
    → lo ≤ off
    → off ≤ hi
    → hi ≤ lo + stream_buf_size
    → off + length bytes ≤ lo + stream_buf_size
    → let b = copied stream_buf_size a (off % stream_buf_size) bytes in
      (copy_in stream_buf_size a (off % stream_buf_size) bytes ≡ some b)
      × Holds content b lo (max hi (off + length bytes))
copied-Holds content a lo hi off bytes held agrees h0 h1 h2 h3 =
    let slot =
      copy_in_slot stream_buf_size a (off % stream_buf_size) bytes (omega arith) (omega arith) in
    (slot.0, λ o ho ho2. slot.1 (o % stream_buf_size) (omega arith) ∙ byte o ho ho2)
  where
    byte :
        (o : ℕ)
        → lo ≤ o
        → o < max hi (off + length bytes)
        → get_or bytes
            (around stream_buf_size (off % stream_buf_size) (o % stream_buf_size))
            (a (o % stream_buf_size))
          ≡ content o
    byte o ho ho2 = elim (in_or_out off (length bytes) o) [
      | inl (h4, h5) ↦
          let there =
            get_or-Agrees content off (o - off) (a (o % stream_buf_size)) bytes agrees
              (omega arith) in
          let index = around_in off o h4 (omega arith) in
          ap (λ (k : ℕ). get_or bytes k (a (o % stream_buf_size))) index
          ∙ there
          ∙ ap content (omega arith)
      | inr h4 ↦
          get_or_beyond (around stream_buf_size (off % stream_buf_size) (o % stream_buf_size))
            (a (o % stream_buf_size)) bytes
            (around_out off o (length bytes) h4 (omega arith) (omega arith))
          ∙ held o ho (omega arith)
    ]

-- The bytes that a copy out of the buffer gives.
pub copy_out-Holds :
    (content : ℕ → ℕ) (a : Array) (lo hi n : ℕ)
    → Holds content a lo hi
    → lo + n ≤ hi
    → n ≤ stream_buf_size
    → (bytes : List ℕ) × (copy_out stream_buf_size a (lo % stream_buf_size) n ≡ some bytes)
      × Agrees content lo bytes
      × (length bytes ≡ n)
copy_out-Holds content a lo hi n held h0 h1 =
    copy_out-Agrees content stream_buf_size a (lo % stream_buf_size) lo n (omega arith) h1
      (λ k hk. ap a (index k hk) ∙ held (lo + k) (omega arith) (omega arith))
  where
    index :
        (k : ℕ)
        → k < n
        → (if ltb (lo % stream_buf_size + k) stream_buf_size
            then lo % stream_buf_size + k
            else lo % stream_buf_size + k - stream_buf_size)
          ≡ (lo + k) % stream_buf_size
    index k hk = ground arith
