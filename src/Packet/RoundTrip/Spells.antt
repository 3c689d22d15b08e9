-- ===== src/Packet/RoundTrip/Spells.antt =====
-- A reader at a position of its buffer, and the bytes that it takes for a value.
use nxp.Prelude.{
  ℕ, ◌+◌, ◌-◌, ◌≤◌, ◌≡◌, ◌∙◌, refl, sym, subst, arith, List, [], ◌∷◌, ◌++◌, append_assoc, some,
  Bool, false, ltb, length, length-append, take-append, drop-append,
}
use nxp.Codec.{Parser, ◌>>=◌, pure, reject_if, get_byte, get_bytes}
use nxp.Packet.Decode.{position}

-- At position `i` of a buffer of `n` bytes, `p` reads `a` from `out`, whatever follows.
unfoldable pub Spells {ℓ} : {A : Type ℓ} → ℕ → ℕ → Parser A → List ℕ → A → Type ℓ
Spells n i p out a =
    (rest : List ℕ) → i + length out + length rest ≡ n → p (out ++ rest) ≡ some (a, rest)

pub pure-Spells {ℓ} : {A : Type ℓ} (n i : ℕ) (a : A) → Spells n i (pure a) [] a
unfolding Spells
pure-Spells n i a rest h = refl

>>=-some {ℓ κ} :
    {A : Type ℓ} {B : Type κ} (p : Parser A) (k : A → Parser B) (l : List ℕ) {a : A} {r : List ℕ}
    → p l ≡ some (a, r)
    → (p >>= k) l ≡ k a r
>>=-some p k l h = rw (h, ◌>>=◌)

pub >>=-Spells {ℓ κ} :
    {A : Type ℓ} {B : Type κ} (n i : ℕ) (p : Parser A) (k : A → Parser B) (u v : List ℕ) (a : A)
    (b : B)
    → Spells n i p u a
    → Spells n (i + length u) (k a) v b
    → Spells n i (p >>= k) (u ++ v) b
unfolding Spells
>>=-Spells n i p k u v a b hp hk rest h =
    let first = hp (v ++ rest) (omega (arith, length-append u v, length-append v rest)) in
    let second = hk rest (omega (arith, length-append u v)) in
    rw (append_assoc u v rest) (>>=-some p k (u ++ (v ++ rest)) first ∙ second)

pub position-Spells : (n i : ℕ) → Spells n i (position n) [] i
unfolding Spells position
position-Spells n i rest h = let e : n - length rest ≡ i = omega arith in rw e refl

pub pure_eq-Spells {ℓ} : {A : Type ℓ} (n i : ℕ) (a b : A) → a ≡ b → Spells n i (pure a) [] b
pure_eq-Spells n i a b e = subst (λ x. Spells n i (pure a) [] x) e (pure-Spells n i a)

pub position_eq-Spells : (n i j : ℕ) → i ≡ j → Spells n i (position n) [] j
position_eq-Spells n i j e = rw (sym e) (position-Spells n i)

pub get_byte-Spells : (n i b : ℕ) → Spells n i get_byte (b ∷ []) b
unfolding Spells get_byte
get_byte-Spells n i b rest h = refl

pub get_bytes-Spells :
    (n i : ℕ) (bytes : List ℕ) → Spells n i (get_bytes (length bytes)) bytes bytes
unfolding Spells get_bytes
get_bytes-Spells n i bytes rest h =
    let enough : length bytes ≤ length (bytes ++ rest) = omega (arith, length-append bytes rest) in
    ground (
      arith,
      enough,
      take-append (length bytes) bytes rest (omega arith),
      drop-append (length bytes) bytes rest (omega arith),
    )

pub reject_if-Spells {ℓ} :
    {A : Type ℓ} (n i : ℕ) (b : Bool) (p : Parser A) (out : List ℕ) (a : A)
    → b ≡ false
    → Spells n i p out a
    → Spells n i (reject_if b p) out a
unfolding Spells
reject_if-Spells n i b p out a e h rest len = rw (e, reject_if) (h rest len)

pub within : (limit n : ℕ) → n ≤ limit → ltb limit n ≡ false
within limit n h = ground arith
