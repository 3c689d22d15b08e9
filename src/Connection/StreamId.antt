-- ===== src/Connection/StreamId.antt =====
-- The ids of streams: `make_stream_id` and `stream_id_is_local` of src/core/connection.c.
use nxp.Prelude.Bits.{bit_or-disjoint, bit_and_step, with_zero}
use nxp.Prelude.{
  suc, ◌∙◌, sym, ℕ, ◌+◌, ◌*◌, ◌<◌, ◌≡◌, refl, arith, Bool, true, false, not, ◌==◌, ◌^◌, ◌/◌, ◌%◌,
  if◌then◌else◌,
}
use nxp.Prelude.Word.{u64_mod}
use nxp.Stream.{StreamType}
use Prim.Native.Nat.{bit_and, bit_or}

unfoldable pub type_number : StreamType → ℕ
type_number StreamType.reliable = 0
type_number StreamType.fast = 1
type_number StreamType.media = 2
type_number StreamType.file = 3

unfoldable pub make_stream_id : ℕ → StreamType → Bool → Bool → ℕ
make_stream_id seq type unidirectional is_server =
    let id = bit_or (seq * 16 % u64_mod) (bit_and (type_number type) 0x3 * 4) in
    let directed = if unidirectional then bit_or id 0x2 else id in
    if is_server then bit_or directed 0x1 else directed

unfoldable pub same : Bool → Bool → Bool
same true b = b
same false b = not b

unfoldable pub stream_id_is_local : ℕ → Bool → Bool
stream_id_is_local stream_id is_server = same (not (bit_and stream_id 0x1 == 0)) is_server

unfoldable pub bit : Bool → ℕ
bit true = 1
bit false = 0

put_type :
    (seq : ℕ) (type : StreamType)
    → seq < 2 ^ 60
    → (bit_or (seq * 16 % u64_mod) (bit_and (type_number type) 0x3 * 4)
        ≡ (seq * 4 + type_number type) * 4)
      × (type_number type < 4)
unfolding type_number
put_type seq type h =
    let whole : seq * 16 % u64_mod ≡ seq * 2 ^ 4 = omega arith in
    elim type
      as (λ t.
        (bit_or (seq * 16 % u64_mod) (bit_and (type_number t) 0x3 * 4)
          ≡ (seq * 4 + type_number t) * 4)
        × (type_number t < 4)) [
          | StreamType.reliable ↦
              rw whole (omega (arith, bit_or-disjoint 4 seq 0 (omega arith)), omega arith)
          | StreamType.fast ↦
              rw whole (omega (arith, bit_or-disjoint 4 seq 4 (omega arith)), omega arith)
          | StreamType.media ↦
              rw whole (omega (arith, bit_or-disjoint 4 seq 8 (omega arith)), omega arith)
          | StreamType.file ↦
              rw whole (omega (arith, bit_or-disjoint 4 seq 12 (omega arith)), omega arith)
        ]

put_bit_1 : (n : ℕ) → bit_or (n * 4) 0x2 ≡ n * 4 + 2
put_bit_1 n = bit_or-disjoint 2 n 2 (omega arith)

put_bit_0 : (n m : ℕ) → m ≡ n * 2 → bit_or m 0x1 ≡ n * 2 + 1
put_bit_0 n m e = rw e (bit_or-disjoint 1 n 1 (omega arith))

-- The fields of an id side by side.
pub make_stream_id-sum :
    (seq : ℕ) (type : StreamType) (unidirectional is_server : Bool)
    → seq < 2 ^ 60
    → make_stream_id seq type unidirectional is_server
      ≡ seq * 16 + type_number type * 4 + bit unidirectional * 2 + bit is_server
unfolding make_stream_id bit
make_stream_id-sum seq type false false h = rw ((put_type seq type h).0) (omega arith)
make_stream_id-sum seq type true false h =
    rw ((put_type seq type h).0, put_bit_1 (seq * 4 + type_number type)) (omega arith)
make_stream_id-sum seq type false true h = rw ((put_type seq type h).0) (
    omega (
      arith,
      put_bit_0 ((seq * 4 + type_number type) * 2) ((seq * 4 + type_number type) * 4) (omega arith),
    ))
make_stream_id-sum seq type true true h =
    rw ((put_type seq type h).0, put_bit_1 (seq * 4 + type_number type))
      (omega (
        arith,
        put_bit_0 ((seq * 4 + type_number type) * 2 + 1) ((seq * 4 + type_number type) * 4 + 2)
            (omega arith),
      ))

low_bit : (n : ℕ) → bit_and n 0x1 ≡ n % 2
low_bit n = omega (arith, bit_and_step n 1, (with_zero (suc (n / 2)) (n / 2) (omega arith)).1)

-- An id belongs to the side that its lowest bit names.
pub stream_id_is_local-bit :
    (id : ℕ) (is_server : Bool) → stream_id_is_local id is_server ≡ (id % 2 == bit is_server)
unfolding stream_id_is_local same bit
stream_id_is_local-bit id true = rw (low_bit id) (ground arith)
stream_id_is_local-bit id false = rw (low_bit id) (ground arith)

bit_below : (b : Bool) → bit b < 2
unfolding bit
bit_below true = omega arith
bit_below false = omega arith

bit-not : (b : Bool) → bit (not b) + bit b ≡ 1
unfolding bit
bit-not true = refl
bit-not false = refl

type_below : (t : StreamType) → type_number t < 4
unfolding type_number
type_below StreamType.reliable = omega arith
type_below StreamType.fast = omega arith
type_below StreamType.media = omega arith
type_below StreamType.file = omega arith

low_of_id :
    (seq : ℕ) (type : StreamType) (uni is_server : Bool)
    → seq < 2 ^ 60
    → make_stream_id seq type uni is_server % 2 ≡ bit is_server
low_of_id seq type uni is_server h =
    omega (arith, make_stream_id-sum seq type uni is_server h, bit_below is_server)

-- A side makes ids that are its own, and not the other's.
pub make_stream_id-is_local :
    (seq : ℕ) (type : StreamType) (uni is_server : Bool)
    → seq < 2 ^ 60
    → (stream_id_is_local (make_stream_id seq type uni is_server) is_server ≡ true)
      × (stream_id_is_local (make_stream_id seq type uni is_server) (not is_server) ≡ false)
make_stream_id-is_local seq type uni is_server h =
    let id = make_stream_id seq type uni is_server in
    let low = low_of_id seq type uni is_server h in
    (
      stream_id_is_local-bit id is_server ∙ ground (arith, low),
      stream_id_is_local-bit id (not is_server) ∙ ground (arith, low, bit-not is_server),
    )

fields :
    (a a' t t' u u' b b' : ℕ)
    → a * 16 + t * 4 + u * 2 + b ≡ a' * 16 + t' * 4 + u' * 2 + b'
    → t < 4
    → t' < 4
    → u < 2
    → u' < 2
    → b < 2
    → b' < 2
    → (a ≡ a') × (t ≡ t') × (u ≡ u') × (b ≡ b')
fields a a' t t' u u' b b' e h1 h2 h3 h4 h5 h6 =
    (omega arith, omega arith, omega arith, omega arith)

-- Two ids are the same only if all of their fields are.
pub make_stream_id-injective :
    (seq seq' : ℕ) (type type' : StreamType) (uni uni' side side' : Bool)
    → seq < 2 ^ 60
    → seq' < 2 ^ 60
    → make_stream_id seq type uni side ≡ make_stream_id seq' type' uni' side'
    → (seq ≡ seq')
      × (type_number type ≡ type_number type')
      × (bit uni ≡ bit uni')
      × (bit side ≡ bit side')
make_stream_id-injective seq seq' type type' uni uni' side side' h h' e =
    let one = make_stream_id-sum seq type uni side h in
    let two = make_stream_id-sum seq' type' uni' side' h' in
    fields seq seq' (type_number type) (type_number type') (bit uni) (bit uni') (bit side)
      (bit side') (sym one ∙ e ∙ two) (type_below type) (type_below type') (bit_below uni)
      (bit_below uni') (bit_below side) (bit_below side')
