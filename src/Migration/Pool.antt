-- ===== src/Migration/Pool.antt =====
-- The pool of the peer's connection ids: bounded, without duplicates, and with one in use at most.
use nxp.Prelude.{
  ℕ, ◌+◌, ◌≤◌, ◌≡◌, inl, inr, refl, ap, ◌∙◌, arith, List, [], ◌∷◌, ◌++◌, Bool, false, not, ◌&&◌,
  ◌||◌, ltb, ◌==◌, if◌then◌else◌, length, length-append, Bool-cases,
}
use nxp.Frame.Types.{ConnId}
use nxp.Migration.{
  CidEntry, MigrationState, max_cid_pool_size, retire, retire_all, has_seq, reuse_slot, add_entry,
  on_new_connection_id, release_all, mark_in_use, use_cid,
}

unfoldable pub count_in_use : List CidEntry → ℕ
count_in_use [] = 0
count_in_use (e ∷ pool) = (if e.in_use then 1 else 0) + count_in_use pool

unfoldable pub IsDistinct : List CidEntry → Type 0
IsDistinct [] = Unit {0}
IsDistinct (e ∷ pool) = (has_seq e.seq_num pool ≡ false) × IsDistinct pool

-- At most 8 entries, no sequence number twice, one entry in use at most.
abbrev pub IsPool : List CidEntry → Type 0
IsPool pool = (length pool ≤ max_cid_pool_size) × IsDistinct pool × (count_in_use pool ≤ 1)

has_seq-retire_all :
    (seq n : ℕ) (pool : List CidEntry) → has_seq seq (retire_all n pool) ≡ has_seq seq pool
unfolding has_seq retire_all retire
has_seq-retire_all seq n [] = refl
has_seq-retire_all seq n (e ∷ pool) = ground (arith, has_seq-retire_all seq n pool)

retire-seq : (n : ℕ) (e : CidEntry) → (retire n e).seq_num ≡ e.seq_num
unfolding retire
retire-seq n e = ground arith

retire_all-IsDistinct :
    (n : ℕ) (pool : List CidEntry) → IsDistinct pool → IsDistinct (retire_all n pool)
unfolding IsDistinct retire_all
retire_all-IsDistinct n [] h = tt
retire_all-IsDistinct n (e ∷ pool) (fresh, h) =
    (rw (retire-seq n e, has_seq-retire_all e.seq_num n pool) fresh, retire_all-IsDistinct n pool h)

retire_all-count :
    (n : ℕ) (pool : List CidEntry)
    → (count_in_use (retire_all n pool) ≤ count_in_use pool)
      × (length (retire_all n pool) ≡ length pool)
unfolding count_in_use retire_all retire
retire_all-count n [] = (omega arith, refl)
retire_all-count n (e ∷ pool) =
    let (c, l) = retire_all-count n pool in (ground (arith, c), omega (arith, l))

has_seq-append :
    (seq : ℕ) (pool : List CidEntry) (x : CidEntry)
    → has_seq seq (pool ++ (x ∷ [])) ≡ (has_seq seq pool || x.seq_num == seq)
unfolding has_seq
has_seq-append seq [] x = ground arith
has_seq-append seq (e ∷ pool) x = ground (arith, has_seq-append seq pool x)

append-IsDistinct :
    (pool : List CidEntry) (x : CidEntry)
    → has_seq x.seq_num pool ≡ false
    → IsDistinct pool
    → IsDistinct (pool ++ (x ∷ []))
unfolding IsDistinct has_seq
append-IsDistinct [] x h d = (refl, tt)
append-IsDistinct (e ∷ pool) x h (fresh, d) = (
  ground (arith, has_seq-append e.seq_num pool x, fresh, h),
  append-IsDistinct pool x (ground (arith, h)) d,
)

append-count :
    (pool : List CidEntry) (x : CidEntry)
    → x.in_use ≡ false
    → count_in_use (pool ++ (x ∷ [])) ≡ count_in_use pool
unfolding count_in_use
append-count [] x h = ground (arith, h)
append-count (e ∷ pool) x h = omega (arith, append-count pool x h)

has_seq-reuse_slot :
    (seq : ℕ) (x : CidEntry) (pool : List CidEntry)
    → (x.seq_num == seq) ≡ false
    → has_seq seq pool ≡ false
    → has_seq seq (reuse_slot x pool) ≡ false
unfolding has_seq reuse_slot
has_seq-reuse_slot seq x [] h k = refl
has_seq-reuse_slot seq x (e ∷ pool) h k = ground (arith, h, k, has_seq-reuse_slot seq x pool h)

reuse_slot-IsDistinct :
    (x : CidEntry) (pool : List CidEntry)
    → has_seq x.seq_num pool ≡ false
    → IsDistinct pool
    → IsDistinct (reuse_slot x pool)
unfolding IsDistinct has_seq reuse_slot
reuse_slot-IsDistinct x [] h d = tt
reuse_slot-IsDistinct x (e ∷ pool) h (fresh, d) = elim (Bool-cases (e.retired && not e.in_use)) [
  | inl free ↦ rw free (ground (arith, h), d)
  | inr taken ↦ rw taken (
    has_seq-reuse_slot e.seq_num x pool (ground (arith, h)) fresh,
    reuse_slot-IsDistinct x pool (ground (arith, h)) d,
  )
]

reuse_slot-count :
    (x : CidEntry) (pool : List CidEntry)
    → x.in_use ≡ false
    → (count_in_use (reuse_slot x pool) ≡ count_in_use pool)
      × (length (reuse_slot x pool) ≡ length pool)
unfolding count_in_use reuse_slot
reuse_slot-count x [] h = (refl, refl)
reuse_slot-count x (e ∷ pool) h =
    let (c, l) = reuse_slot-count x pool h in (ground (arith, c, h), ground (arith, l))

add_entry-IsPool :
    (x : CidEntry) (pool : List CidEntry)
    → has_seq x.seq_num pool ≡ false
    → x.in_use ≡ false
    → IsPool pool
    → IsPool (add_entry x pool)
unfolding add_entry
add_entry-IsPool x pool h free (small, d, one) =
    elim (Bool-cases (ltb (length pool) max_cid_pool_size)) [
      | inl room ↦ rw room (
        ground (arith, room, length-append pool (x ∷ [])),
        append-IsDistinct pool x h d,
        omega (arith, append-count pool x free, one),
      )
      | inr full ↦
          let (c, l) = reuse_slot-count x pool free in
          rw full (omega (arith, l, small), reuse_slot-IsDistinct x pool h d, omega (arith, c, one))
    ]

retire_all-IsPool : (n : ℕ) (pool : List CidEntry) → IsPool pool → IsPool (retire_all n pool)
retire_all-IsPool n pool (small, d, one) =
    let (c, l) = retire_all-count n pool in
    (omega (arith, l, small), retire_all-IsDistinct n pool d, omega (arith, c, one))

-- A connection id that the peer offers keeps the pool within its 8 slots, without a sequence number
-- twice, and with one entry in use at most, whatever it retires.
pub on_new_connection_id-IsPool :
    (ms : MigrationState) (cid : ConnId) (seq_num retire_prior_to : ℕ) (token : List ℕ)
    → IsPool ms.peer_cid_pool
    → IsPool (on_new_connection_id ms cid seq_num retire_prior_to token).peer_cid_pool
unfolding on_new_connection_id
on_new_connection_id-IsPool ms cid seq_num retire_prior_to token v =
    let pool = retire_all retire_prior_to ms.peer_cid_pool in
    let kept = retire_all-IsPool retire_prior_to ms.peer_cid_pool v in
    elim (Bool-cases (has_seq seq_num pool)) [
      | inl old ↦ rw old kept
      | inr new ↦ rw new (add_entry-IsPool _ pool new refl kept)
    ]

release_all_lem :
    (pool : List CidEntry)
    → (count_in_use (release_all pool) ≡ 0) × (length (release_all pool) ≡ length pool)
unfolding count_in_use release_all
release_all_lem [] = (refl, refl)
release_all_lem (e ∷ pool) =
    let (c, l) = release_all_lem pool in (omega (arith, c), omega (arith, l))

has_seq-release_all :
    (seq : ℕ) (pool : List CidEntry) → has_seq seq (release_all pool) ≡ has_seq seq pool
unfolding has_seq release_all
has_seq-release_all seq [] = refl
has_seq-release_all seq (e ∷ pool) = ground (arith, has_seq-release_all seq pool)

release_all-IsDistinct : (pool : List CidEntry) → IsDistinct pool → IsDistinct (release_all pool)
unfolding IsDistinct release_all
release_all-IsDistinct [] h = tt
release_all-IsDistinct (e ∷ pool) (fresh, h) =
    (rw (has_seq-release_all e.seq_num pool) fresh, release_all-IsDistinct pool h)

has_seq-mark_in_use :
    (seq n : ℕ) (pool : List CidEntry) → has_seq seq (mark_in_use n pool) ≡ has_seq seq pool
unfolding has_seq mark_in_use
has_seq-mark_in_use seq n [] = refl
has_seq-mark_in_use seq n (e ∷ pool) = ground (arith, has_seq-mark_in_use seq n pool)

mark_in_use-IsDistinct :
    (n : ℕ) (pool : List CidEntry) → IsDistinct pool → IsDistinct (mark_in_use n pool)
unfolding IsDistinct mark_in_use
mark_in_use-IsDistinct n [] h = tt
mark_in_use-IsDistinct n (e ∷ pool) (fresh, h) = elim (Bool-cases (e.seq_num == n)) [
  | inl found ↦ rw found (fresh, h)
  | inr other ↦
      rw other (rw (has_seq-mark_in_use e.seq_num n pool) fresh, mark_in_use-IsDistinct n pool h)
]

-- The entry that comes into use is the only one, and there is one if the number is in the pool.
mark_in_use-count :
    (n : ℕ) (pool : List CidEntry)
    → count_in_use pool ≡ 0
    → (count_in_use (mark_in_use n pool) ≡ (if has_seq n pool then 1 else 0))
      × (length (mark_in_use n pool) ≡ length pool)
unfolding count_in_use mark_in_use has_seq
mark_in_use-count n [] h = (refl, refl)
mark_in_use-count n (e ∷ pool) h =
    let (c, l) = mark_in_use-count n pool (ground (arith, h)) in
    (ground (arith, c, h), ground (arith, l))

pool-use_cid :
    (ms : MigrationState) (seq_num : ℕ)
    → (use_cid ms seq_num).peer_cid_pool ≡ mark_in_use seq_num (release_all ms.peer_cid_pool)
unfolding use_cid
pool-use_cid ms seq_num = refl

-- Switching to a connection id leaves the pool in order, with exactly one entry in use if the sequence
-- number is in the pool, and none if it is not.
pub use_cid-IsPool :
    (ms : MigrationState) (seq_num : ℕ)
    → IsPool ms.peer_cid_pool
    → let pool = (use_cid ms seq_num).peer_cid_pool in
      IsPool pool × (count_in_use pool ≡ (if has_seq seq_num ms.peer_cid_pool then 1 else 0))
use_cid-IsPool ms seq_num (small, d, one) =
    let (c, l) = release_all_lem ms.peer_cid_pool in
    let (used, same) = mark_in_use-count seq_num (release_all ms.peer_cid_pool) c in
    let exact =
      used ∙ ap (λ (b : Bool). if b then 1 else 0) (has_seq-release_all seq_num ms.peer_cid_pool) in
    rw (pool-use_cid ms seq_num) (
      (
        omega (arith, same, l, small),
        mark_in_use-IsDistinct seq_num _ (release_all-IsDistinct ms.peer_cid_pool d),
        at_most_one (has_seq seq_num ms.peer_cid_pool) exact,
      ),
      exact,
    )
  where
    at_most_one : {n : ℕ} (b : Bool) → n ≡ (if b then 1 else 0) → n ≤ 1
    at_most_one b h = ground (arith, h)
