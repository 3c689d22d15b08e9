-- ===== src/Varint/Extent.antt =====
-- What `decode` takes from its input: 1, 2, 4 or 8 bytes, for a number that `encode` can write.
use nxp.Prelude.{
  ℕ, ◌%◌, ◌≤◌, ◌<◌, ◌≡◌, ◌⊎◌, ap, arith, List, [], ◌∷◌, ◌++◌, some, length, All, inl, inr,
}
use nxp.Prelude.Bits.{mask_6}
use nxp.Prelude.Word.{IsByte}
use nxp.Varint.{decode, decode_2, decode_4, decode_8, varint_max}
use nxp.Varint.Bytes.{decode_2_lem, decode_4_lem, decode_8_lem}

abbrev pub Extent : List ℕ → ℕ → List ℕ → Type 0
Extent l v r = (u : List ℕ) × (l ≡ u ++ r) × (0 < length u) × (v ≤ varint_max)

decode_2-Extent :
    (b0 : ℕ) (l : List ℕ) (v : ℕ) (r : List ℕ)
    → All IsByte l
    → decode_2 b0 l ≡ some (v, r)
    → Extent (b0 ∷ l) v r
unfolding decode_2
decode_2-Extent b0 [] v r h e = absurd (ground (arith, e))
decode_2-Extent b0 (b1 ∷ rest) v r (h1, t) e =
    let d = decode_2_lem b0 b1 rest h1 in
    (b0 ∷ b1 ∷ [], ground (arith, d, e), omega arith, ground (arith, d, e))

decode_4-Extent :
    (b0 : ℕ) (l : List ℕ) (v : ℕ) (r : List ℕ)
    → All IsByte l
    → decode_4 b0 l ≡ some (v, r)
    → Extent (b0 ∷ l) v r
unfolding decode_4
decode_4-Extent b0 (b1 ∷ b2 ∷ b3 ∷ rest) v r (h1, (h2, (h3, t))) e =
    let d = decode_4_lem b0 b1 b2 b3 rest h1 h2 h3 in
    (b0 ∷ b1 ∷ b2 ∷ b3 ∷ [], ground (arith, d, e), omega arith, ground (arith, d, e))
decode_4-Extent b0 _ v r h e = absurd (ground (arith, e))

decode_8-Extent :
    (b0 : ℕ) (l : List ℕ) (v : ℕ) (r : List ℕ)
    → All IsByte l
    → decode_8 b0 l ≡ some (v, r)
    → Extent (b0 ∷ l) v r
unfolding decode_8
decode_8-Extent b0 (b1 ∷ b2 ∷ b3 ∷ b4 ∷ b5 ∷ b6 ∷ b7 ∷ rest) v r
      (h1, (h2, (h3, (h4, (h5, (h6, (h7, t))))))) e =
    let d = decode_8_lem b0 b1 b2 b3 b4 b5 b6 b7 rest h1 h2 h3 h4 h5 h6 h7 in
    (
      b0 ∷ b1 ∷ b2 ∷ b3 ∷ b4 ∷ b5 ∷ b6 ∷ b7 ∷ [],
      ground (arith, d, e),
      omega arith,
      ground (arith, d, e),
    )
decode_8-Extent b0 _ v r h e = absurd (ground (arith, e))

by_prefix :
    (b0 : ℕ) (l : List ℕ) (v : ℕ) (r : List ℕ)
    → IsByte b0
    → decode (b0 ∷ l) ≡ some (v, r)
    → ((v ≡ b0 % 64) × (l ≡ r))
      ⊎ ((decode_2 b0 l ≡ some (v, r))
          ⊎ ((decode_4 b0 l ≡ some (v, r)) ⊎ (decode_8 b0 l ≡ some (v, r))))
unfolding decode
by_prefix b0 l v r h e = ground (arith, e, mask_6 b0)

-- A number that is read from bytes is at most the maximum, and takes a byte at least.
pub decode-Extent :
    (l : List ℕ) (v : ℕ) (r : List ℕ) → All IsByte l → decode l ≡ some (v, r) → Extent l v r
decode-Extent [] v r h e = unfold decode in absurd (ground (arith, e))
decode-Extent (b0 ∷ l) v r (hb, h) e = elim (by_prefix b0 l v r hb e) [
  | inl (a, b) ↦ (b0 ∷ [], ap (λ (t : List ℕ). b0 ∷ t) b, omega arith, omega arith)
  | inr (inl d) ↦ decode_2-Extent b0 l v r h d
  | inr (inr (inl d)) ↦ decode_4-Extent b0 l v r h d
  | inr (inr (inr d)) ↦ decode_8-Extent b0 l v r h d
]
