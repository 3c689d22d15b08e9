-- ===== src/Codec.antt =====
-- How the frame engine walks a buffer: the static helpers `encode_varint` and `decode_varint` of
-- src/core/frame.c and the checked copies that its functions repeat.
-- A reader is at `buf[pos]`: it sees the bytes from there to `buf_len`, and hands on the bytes that
-- it leaves. A writer has a cursor: `pos`, and the old bytes of the buffer from `pos` on, so that
-- `buf_len` is their sum; it gives the bytes that it stores at `pos` and the next cursor. `none`
-- is the early `return 0`.
pub mod Laws
pub mod Takes
pub mod Total
use nxp.Prelude.{
  ℕ, ◌+◌, ◌-◌, ◌≤◌, ◌<◌, ◌^◌, List, [], ◌∷◌, ◌++◌, Option, none, some, Bool, leb, ltb,
  if◌then◌else◌, length, take, drop,
}
use nxp.Prelude.Word.{add64}
use nxp.Varint

abbrev pub Parser {ℓ} : Type ℓ → Type ℓ
Parser A = List ℕ → Option (A × List ℕ)

infixl 5 ◌>>=◌
abbrev pub ◌>>=◌ {ℓ κ} : {A : Type ℓ} {B : Type κ} → Parser A → (A → Parser B) → Parser B
◌>>=◌ p k l = elim (p l) [ none ↦ none | some (a, r) ↦ k a r ]

abbrev pub pure {ℓ} : {A : Type ℓ} → A → Parser A
pure a l = some (a, l)

-- `if (cond) return 0;`
abbrev pub reject_if {ℓ} : {A : Type ℓ} → Bool → Parser A → Parser A
reject_if b p l = if b then none else p l

-- `decode_varint`
unfoldable pub get_varint : Parser ℕ
get_varint [] = none
get_varint (b ∷ rest) = Varint.decode (b ∷ rest)

-- `if (pos >= buf_len) return 0; x = buf[pos++];`
unfoldable pub get_byte : Parser ℕ
get_byte [] = none
get_byte (b ∷ rest) = some (b, rest)

-- `if (pos + n > buf_len) return 0;` and the n bytes at `pos`. `n` is at most 2^20 wherever this
-- is called, so the sum does not wrap.
unfoldable pub get_bytes : ℕ → Parser (List ℕ)
get_bytes n l = if ltb (length l) n then none else some (take n l, drop n l)

-- A pointer into the source buffer: it stays null for an empty field.
unfoldable pub get_data : ℕ → Parser (Option (List ℕ))
get_data n l = if ltb 0 n then (get_bytes n >>= λ bytes. pure (some bytes)) l else some (none, l)

pub record Cursor : Type 0 where
  pub pos : ℕ
  pub room : List ℕ

abbrev pub buf_len : Cursor → ℕ
buf_len c = c.pos + length c.room

abbrev pub Writer : Type 0
Writer = Cursor → Option (List ℕ × Cursor)

infixr 5 ◌>>◌
abbrev pub ◌>>◌ : Writer → Writer → Writer
◌>>◌ v w c = elim (v c) [
  | none ↦ none
  | some (out, c') ↦ elim (w c') [ none ↦ none | some (more, c'') ↦ some (out ++ more, c'') ]
]

abbrev pub skip : Writer
skip c = some ([], c)

-- `if (cond) return 0;`
abbrev pub fail_if : Bool → Writer → Writer
fail_if b w c = if b then none else w c

unfoldable pub advance : List ℕ → Cursor → List ℕ × Cursor
advance out c = (out, record { pos = c.pos + length out; room = drop (length out) c.room })

-- `encode_varint` with its check and `pos += n`
unfoldable pub put_varint : ℕ → Writer
unfolding advance
put_varint v c =
    if leb (buf_len c) c.pos then none else elim (Varint.encode v (buf_len c - c.pos)) [
      | none ↦ none
      | some out ↦ some (advance out c)
    ]

-- `if (pos >= buf_len) return 0; buf[pos++] = b;`
unfoldable pub put_byte : ℕ → Writer
unfolding advance
put_byte b c = if leb (buf_len c) c.pos then none else some (advance (b ∷ []) c)

-- What `memcpy` finds behind a pointer, for the bytes that may be read there. Behind a null
-- pointer nothing is copied, and the buffer keeps its old bytes.
unfoldable pub source_bytes : Option (List ℕ) → ℕ → List ℕ → List ℕ
source_bytes none n old = take n old
source_bytes (some bytes) n old = take n bytes

-- `if (pos + n > buf_len) return 0; if (src != nullptr) memcpy(&buf[pos], src, n); pos += n;`
unfoldable pub put_data : Option (List ℕ) → ℕ → Writer
put_data src n c =
    if ltb (buf_len c) (add64 c.pos n)
    then none
    else some (source_bytes src n c.room, record { pos = add64 c.pos n; room = drop n c.room })

-- An encoder called with a buffer: the bytes that it stores, from `buf[0]` on.
unfoldable pub run : Writer → List ℕ → Option (List ℕ)
run w buf = elim (w (record { pos = 0; room = buf })) [ none ↦ none | some (out, c) ↦ some out ]
