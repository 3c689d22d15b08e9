-- ===== src/Circular/Content.antt =====
-- What a circular array holds: the byte at each offset of an endless sequence, where the offset's
-- index is its remainder by the size.
use nxp.Prelude.{
  ℕ, zero, suc, ◌+◌, ◌-◌, ◌≤◌, ◌<◌, ◌≡◌, refl, sym, ap, subst, ◌∙◌, arith, List, [], ◌∷◌, ◌++◌,
  some, ltb, if◌then◌else◌, length, get_or, take, drop, length-append, Bool-cases, inl, inr,
}
use nxp.Circular.{Array, store, load, before_end, copied, copy_in, copy_out}

-- The bytes are those of the sequence from the offset on.
abbrev pub Agrees : (ℕ → ℕ) → ℕ → List ℕ → Type 0
Agrees s off [] = Unit {0}
Agrees s off (b ∷ bytes) = (b ≡ s off) × Agrees s (suc off) bytes

pub get_or-Agrees :
    (s : ℕ → ℕ) (off k d : ℕ) (bytes : List ℕ)
    → Agrees s off bytes
    → k < length bytes
    → get_or bytes k d ≡ s (off + k)
get_or-Agrees s off k d [] h hk = absurd (omega arith)
get_or-Agrees s off zero d (b ∷ bytes) h hk = h.0 ∙ ap s (omega arith)
get_or-Agrees s off (suc k) d (b ∷ bytes) h hk =
    get_or-Agrees s (suc off) k d bytes h.1 (omega arith) ∙ ap s (omega arith)

pub Agrees-append :
    (s : ℕ → ℕ) (off : ℕ) (xs ys : List ℕ)
    → Agrees s off xs
    → Agrees s (off + length xs) ys
    → Agrees s off (xs ++ ys)
Agrees-append s off [] ys hx hy = subst (λ o. Agrees s o ys) (omega arith) hy
Agrees-append s off (x ∷ xs) ys hx hy =
    (hx.0, Agrees-append s (suc off) xs ys hx.1 (subst (λ o. Agrees s o ys) (omega arith) hy))

get_or-take :
    (n k d : ℕ) (xs : List ℕ) → get_or (take n xs) k d ≡ (if ltb k n then get_or xs k d else d)
get_or-take zero k d xs = ground arith
get_or-take (suc n) k d [] = ground arith
get_or-take (suc n) zero d (x ∷ xs) = ground arith
get_or-take (suc n) (suc k) d (x ∷ xs) = ground (arith, get_or-take n k d xs)

get_or-drop : (n k d : ℕ) (xs : List ℕ) → get_or (drop n xs) k d ≡ get_or xs (n + k) d
get_or-drop zero k d xs = ap (λ (i : ℕ). get_or xs i d) (omega arith)
get_or-drop (suc n) k d [] = refl
get_or-drop (suc n) k d (x ∷ xs) =
    let shifted : suc n + k ≡ suc (n + k) = omega arith in
    get_or-drop n k d xs ∙ ap (λ (i : ℕ). get_or (x ∷ xs) i d) (sym shifted)

pub get_or_beyond : (k d : ℕ) (xs : List ℕ) → length xs ≤ k → get_or xs k d ≡ d
get_or_beyond k d [] h = refl
get_or_beyond zero d (x ∷ xs) h = absurd (omega arith)
get_or_beyond (suc k) d (x ∷ xs) h = get_or_beyond k d xs (omega arith)

-- How far an index lies behind another one, around the end.
abbrev pub around : ℕ → ℕ → ℕ → ℕ
around size pos i = if ltb i pos then i + size - pos else i - pos

-- The byte that the two parts of a copy leave at an index below the size: `first` bytes went to `pos`.
two_parts :
    (size first pos i d : ℕ) (bytes : List ℕ)
    → pos < size
    → length bytes ≤ size
    → i < size
    → first ≡ before_end size pos (length bytes)
    → get_or
        (drop first bytes)
        (i - 0)
        (if ltb i pos then d else get_or (take first bytes) (i - pos) d)
      ≡ get_or bytes (around size pos i) d
unfolding before_end
two_parts size first pos i d bytes hp hn hi e =
    elim (Bool-cases (ltb (length bytes) (size - pos))) [
      | inl short ↦
          let whole : first ≡ length bytes = ground (arith, e, short) in
          ground (
            arith,
            get_or-drop first (i - 0) d bytes,
            get_or-drop first (i - 0) (get_or (take first bytes) (i - pos) d) bytes,
            get_or_beyond (first + (i - 0)) d bytes (omega arith),
            get_or_beyond (first + (i - 0)) (get_or (take first bytes) (i - pos) d) bytes
                (omega arith),
            get_or-take first (i - pos) d bytes,
            get_or_beyond (i - pos) d bytes,
            get_or_beyond (i + size - pos) d bytes,
            whole,
            short,
          )
      | inr long ↦
          let part : first ≡ size - pos = ground (arith, e, long) in
          let index : first + (i - 0) ≡ i + size - pos = omega arith in
          ground (
            arith,
            get_or-drop first (i - 0) d bytes ∙ ap (λ (k : ℕ). get_or bytes k d) index,
            get_or-drop first (i - 0) (get_or (take first bytes) (i - pos) d) bytes,
            get_or_beyond (first + (i - 0)) (get_or (take first bytes) (i - pos) d) bytes,
            get_or-take first (i - pos) d bytes,
            part,
            long,
          )
    ]

-- A copy of at most the size succeeds; this is the byte that it leaves at an index below the size.
pub copy_in_slot :
    (size : ℕ) (a : Array) (pos : ℕ) (bytes : List ℕ)
    → pos < size
    → length bytes ≤ size
    → (copy_in size a pos bytes ≡ some (copied size a pos bytes))
      × ((i : ℕ) → i < size → copied size a pos bytes i ≡ get_or bytes (around size pos i) (a i))
unfolding copy_in copied store
copy_in_slot size a pos bytes hp hn = (
  unfold before_end in ground arith,
  λ i hi.
      ground (
        arith,
        two_parts size (before_end size pos (length bytes)) pos i (a i) bytes hp hn hi refl,
      ),
)

pub load-Agrees :
    (s : ℕ → ℕ) (a : Array) (pos off n : ℕ)
    → ((k : ℕ) → k < n → a (pos + k) ≡ s (off + k))
    → Agrees s off (load a pos n) × (length (load a pos n) ≡ n)
unfolding load
load-Agrees s a pos off zero h = (tt, refl)
load-Agrees s a pos off (suc n) h =
    let rest =
      load-Agrees s a (suc pos) (suc off) n
        (λ k hk. ap a (omega arith) ∙ h (suc k) (omega arith) ∙ ap s (omega arith)) in
    ((ap a (omega arith) ∙ h 0 (omega arith) ∙ ap s (omega arith), rest.0), omega (arith, rest.1))

-- The bytes that a copy out of the circle gives.
pub copy_out-Agrees :
    (s : ℕ → ℕ) (size : ℕ) (a : Array) (pos off n : ℕ)
    → pos < size
    → n ≤ size
    → ((k : ℕ) → k < n → a (if ltb (pos + k) size then pos + k else pos + k - size) ≡ s (off + k))
    → (bytes : List ℕ) × (copy_out size a pos n ≡ some bytes)
      × Agrees s off bytes
      × (length bytes ≡ n)
unfolding copy_out
copy_out-Agrees s size a pos off n hp hn h =
    let first = before_end size pos n in
    let bound : first ≤ size - pos = unfold before_end in ground arith in
    let fits : first ≤ n = unfold before_end in ground arith in
    let rest : n - first ≤ size = omega arith in
    let left = load-Agrees s a pos off first (λ k hk. ground (arith, h k)) in
    let right = load-Agrees s a 0 (off + first) (n - first) (λ k hk.
      let full : first ≡ size - pos = unfold before_end in ground arith in
      let wrapped : a (pos + (first + k) - size) ≡ s (off + (first + k)) =
        ground (arith, h (first + k)) in
      ap a (omega arith) ∙ wrapped ∙ ap s (omega arith)) in
    (
      load a pos first ++ load a 0 (n - first),
      ground (arith, rest),
      Agrees-append s off (load a pos first) (load a 0 (n - first)) left.0
          (subst (λ l. Agrees s (off + l) (load a 0 (n - first))) (sym left.1) right.0),
      omega (arith, length-append (load a pos first) (load a 0 (n - first)), left.1, right.1),
    )
