-- ===== src/Codec/Takes.antt =====
-- What a reader takes from its input, and what it promises of its result: a calculus for the
-- cases of the decoder.
use nxp.Prelude.{
  ℕ, ◌≤◌, ◌<◌, ◌≡◌, ◌∙◌, sym, refl, ap, arith, List, [], ◌∷◌, ◌++◌, append_assoc, Option, some,
  none, Bool, true, false, ltb, ltb→lt, ltb-false, if◌then◌else◌, length, take, length-append,
  length-take, take-append-drop, All, Option-cases, Bool-cases, inl, inr,
}
use nxp.Prelude.Word.{IsByte}
use nxp.Varint.{varint_max}
use nxp.Varint.Extent.{decode-Extent}
use nxp.Codec.{Parser, ◌>>=◌, pure, reject_if, get_varint, get_byte, get_bytes, get_data}
use nxp.Codec.Laws.{Carries}

-- On bytes, `p` hands on a part of its input that is at least `k` bytes shorter, and `P` holds.
unfoldable pub Takes {ℓ κ} : {A : Type ℓ} → ℕ → Parser A → (A → Type κ) → Type (ℓ ⊔ κ)
Takes {A = A} k p P =
    (l : List ℕ) (a : A) (r : List ℕ)
    → All IsByte l
    → p l ≡ some (a, r)
    → (u : List ℕ) × (l ≡ u ++ r) × (k ≤ length u) × P a

All-behind : (u r : List ℕ) → All IsByte (u ++ r) → All IsByte r
All-behind [] r h = h
All-behind (b ∷ u) r h = All-behind u r h.1

pub pure-Takes {ℓ κ} : {A : Type ℓ} (P : A → Type κ) (a : A) → P a → Takes 0 (pure a) P
unfolding Takes
pure-Takes {A} P a h l b r bytes e =
    let (same, left) = split e in ([], left, omega arith, rw same at h)
  where
    split : ◌≡◌ {A = Option (A × List ℕ)} (some (a, l)) (some (b, r)) → (a ≡ b) × (l ≡ r)
    split e = ground (arith, e)

>>=-inv {ℓ κ} :
    {A : Type ℓ} {B : Type κ} (p : Parser A) (f : A → Parser B) (l : List ℕ) {b : B} {r : List ℕ}
    → (p >>= f) l ≡ some (b, r)
    → (a : A) × (r1 : List ℕ) × (p l ≡ some (a, r1)) × (f a r1 ≡ some (b, r))
>>=-inv p f l {b} {r} h = elim (Option-cases (p l)) [
  | inl e ↦ absurd (ground (arith, rw (e, ◌>>=◌) at h))
  | inr ((a, r1), e) ↦ (a, r1, e, rw (e, ◌>>=◌) at h)
]

pub >>=-Takes {ℓ κ} :
    {A : Type ℓ} {B : Type κ} (P : A → Type 0) (Q : B → Type 0) (j k : ℕ) (p : Parser A)
    (f : A → Parser B)
    → Takes j p P
    → ((a : A) → P a → Takes k (f a) Q)
    → Takes j (p >>= f) Q
unfolding Takes
>>=-Takes P Q j k p f hp hf l b r bytes e =
    let (a, r1, e1, e2) = >>=-inv p f l e in
    let (u1, s1, n1, pa) = hp l a r1 bytes e1 in
    let (u2, s2, n2, qb) = hf a pa r1 b r (All-behind u1 r1 (rw s1 at bytes)) e2 in
    (
      u1 ++ u2,
      s1 ∙ ap (λ t. u1 ++ t) s2 ∙ sym (append_assoc u1 u2 r),
      omega (arith, n1, length-append u1 u2),
      qb,
    )

pub reject_if-Takes {ℓ} :
    {A : Type ℓ} (P : A → Type 0) (k limit n : ℕ) (p : Parser A)
    → (n ≤ limit → Takes k p P)
    → Takes k (reject_if (ltb limit n) p) P
unfolding Takes
reject_if-Takes P k limit n p h l a r bytes e = elim (Bool-cases (ltb limit n)) [
  | inl over ↦ absurd (ground (arith, over, e))
  | inr within ↦ h (ltb-false limit n within) l a r bytes (ground (arith, within, e))
]

pub get_varint-Takes : Takes 1 get_varint (λ v. v ≤ varint_max)
unfolding Takes get_varint
get_varint-Takes [] v r bytes e = absurd (ground (arith, e))
get_varint-Takes (b ∷ l) v r bytes e =
    let (u, s, pos, small) = decode-Extent (b ∷ l) v r bytes e in (u, s, pos, small)

pub get_byte-Takes : Takes 1 get_byte (λ b. b < 256)
unfolding Takes get_byte
get_byte-Takes [] v r bytes e = absurd (ground (arith, e))
get_byte-Takes (b ∷ l) v r (hb, bytes) e =
    (b ∷ [], ground (arith, e), omega arith, ground (arith, e, hb))

pub get_bytes-Takes : (n : ℕ) → Takes 0 (get_bytes n) (λ bytes. length bytes ≡ n)
unfolding Takes get_bytes
get_bytes-Takes n l a r bytes e = elim (Bool-cases (ltb (length l) n)) [
  | inl short ↦ absurd (ground (arith, short, e))
  | inr enough ↦
      let le = ltb-false (length l) n enough in
      (
        take n l,
        ground (arith, enough, e, take-append-drop n l),
        omega arith,
        ground (arith, enough, e, le, length-take n l),
      )
]

pub if-Takes {ℓ} :
    {A : Type ℓ} (P : A → Type 0) (k : ℕ) (b : Bool) (p q : Parser A)
    → (b ≡ true → Takes k p P)
    → (b ≡ false → Takes k q P)
    → Takes k (λ l. if b then p l else q l) P
if-Takes P k true p q hp hq = hp refl
if-Takes P k false p q hp hq = hq refl

pub get_data-Takes : (n : ℕ) → Takes 0 (get_data n) (λ src. Carries n src)
unfolding get_data
get_data-Takes n =
    if-Takes (λ src. Carries n src) 0 (ltb 0 n) (get_bytes n >>= λ bytes. pure (some bytes))
      (pure none)
      (λ pos.
        >>=-Takes (λ bytes. length bytes ≡ n) _ 0 0 _ _ (get_bytes-Takes n)
          (λ bytes len. pure-Takes _ (some bytes) (sym len, ltb→lt 0 n pos)))
      (λ none_left. pure-Takes _ none (omega (arith, ltb-false 0 n none_left)))

-- The same for a choice between two readers.
pub choose-Takes {ℓ} :
    {A : Type ℓ} (P : A → Type 0) (k : ℕ) (b : Bool) (p q : Parser A)
    → Takes k p P
    → Takes k q P
    → Takes k (if b then p else q) P
choose-Takes P k true p q hp hq = hp
choose-Takes P k false p q hp hq = hq

pub weaken {ℓ} : {A : Type ℓ} (P : A → Type 0) (k : ℕ) (p : Parser A) → Takes k p P → Takes 0 p P
unfolding Takes
weaken P k p h l a r bytes e = let (u, s, n, pa) = h l a r bytes e in (u, s, omega arith, pa)

-- A weaker promise about the result.
pub promise {ℓ} :
    {A : Type ℓ} (p : Parser A) (k : ℕ) (P Q : A → Type 0)
    → ((a : A) → P a → Q a)
    → Takes k p P
    → Takes k p Q
unfolding Takes
promise p k P Q f h l a r bytes e = let (u, s, n, pa) = h l a r bytes e in (u, s, n, f a pa)
