-- ===== src/Circular.antt =====
-- Byte arrays of a fixed size that are used in a circle, as the send and receive buffers of
-- src/core/stream.c and the ring buffer of src/util/ring_buffer.c are: each copy is a `memcpy` up to the
-- end of the array and a second one from its start.
pub mod Content
use nxp.Prelude.{
  ℕ, zero, suc, ◌+◌, ◌-◌, List, [], ◌∷◌, ◌++◌, Option, none, some, ltb, leb, if◌then◌else◌, length,
  get_or, take, drop,
}

-- The bytes by their index; what lies at the size and above is not part of the array.
abbrev pub Array : Type 0
Array = ℕ → ℕ

-- `memcpy(a + pos, bytes, n)`
unfoldable pub store : Array → ℕ → List ℕ → Array
store a pos bytes i = if ltb i pos then a i else get_or bytes (i - pos) (a i)

-- `memcpy(out, a + pos, n)`
unfoldable pub load : Array → ℕ → ℕ → List ℕ
load a pos zero = []
load a pos (suc n) = a pos ∷ load a (suc pos) n

-- How many of `n` bytes fit between the index and the end.
unfoldable pub before_end : ℕ → ℕ → ℕ → ℕ
before_end size pos n = if ltb n (size - pos) then n else size - pos

unfoldable pub copied : ℕ → Array → ℕ → List ℕ → Array
copied size a pos bytes =
    let first = before_end size pos (length bytes) in
    store (store a pos (take first bytes)) 0 (drop first bytes)

-- `none` where the second `memcpy` would write past the end of the array.
unfoldable pub copy_in : ℕ → Array → ℕ → List ℕ → Option Array
copy_in size a pos bytes =
    if ltb size (length bytes - before_end size pos (length bytes))
    then none
    else some (copied size a pos bytes)

-- `none` where the second `memcpy` would read past the end of the array.
unfoldable pub copy_out : ℕ → Array → ℕ → ℕ → Option (List ℕ)
copy_out size a pos n =
    let first = before_end size pos n in
    if ltb size (n - first) then none else some (load a pos first ++ load a 0 (n - first))
