-- ===== src/Scheduler/Queue.antt =====
-- The scheduler as a queue: what its operations do to the streams in turn.
pub mod Remove
use nxp.Prelude.{
  ℕ, ◌≡◌, ◌∙◌, ◌≢◌, ◌⊎◌, inl, inr, refl, sym, ap, subst, arith, List, [], ◌∷◌, ◌++◌, Option, none,
  some, Bool, true, false, ◌==◌, ◌||◌, ==→eq, if◌then◌else◌, Bool-cases, append-nil,
}
use nxp.Stream.{Stream}
use nxp.Scheduler
use nxp.Scheduler.{
  Ptr, Sched, init, assign, point_next, point_prev, mark, insert_between, insert_first,
  insert_at_tail, add, is_at, linked, bypass, take_out, remove, is_idle, next,
}
use nxp.Scheduler.Ring.{
  has, IsDistinct, IsLinked, IsWalk, IsRing, rotate, last_link, IsWalk-insert_between,
  IsWalk-bypass,
}

-- The queue that the scheduler promises: a stream that is already in it keeps its place.
unfoldable pub enqueue : ℕ → List ℕ → List ℕ
enqueue s xs = if has s xs then xs else xs ++ s ∷ []

unfoldable pub dequeue : ℕ → List ℕ → List ℕ
dequeue s [] = []
dequeue s (x ∷ xs) = if s == x then xs else x ∷ dequeue s xs

-- The first stream has its turn, and goes to the end if it has more to send.
unfoldable pub take_turn : (ℕ → Stream) → List ℕ → List ℕ × Ptr
take_turn stream_at [] = ([], none)
take_turn stream_at (x ∷ xs) = (if is_idle (stream_at x) then xs else xs ++ x ∷ [], some x)

abbrev pub first : List ℕ → Ptr
first [] = none
first (x ∷ xs) = some x

pub record IsQueue (sc : Sched) (xs : List ℕ) : Type 0 where
  pub head : sc.sched_head ≡ first xs
  pub ring : IsRing sc.sched_next sc.sched_prev xs
  pub distinct : IsDistinct xs
  pub marks : (a : ℕ) → sc.scheduled a ≡ has a xs

pub has-append : (a : ℕ) (xs ys : List ℕ) → has a (xs ++ ys) ≡ (has a xs || has a ys)
has-append a [] ys = refl
has-append a (x ∷ xs) ys = ground (arith, has-append a xs ys)

pub IsDistinct-snoc :
    (xs : List ℕ) (s : ℕ) → has s xs ≡ false → IsDistinct xs → IsDistinct (xs ++ s ∷ [])
IsDistinct-snoc [] s out d = (refl, tt)
IsDistinct-snoc (x ∷ xs) s out d =
    (ground (arith, has-append x xs (s ∷ [])), IsDistinct-snoc xs s (ground arith) d.1)

abbrev pub IsAdded : List ℕ → Option Sched → Type 0
IsAdded xs r = (sc : Sched) × (r ≡ some sc) × IsQueue sc xs

pub init-IsQueue : IsQueue init []
init-IsQueue = record { head = refl; ring = tt; distinct = tt; marks = λ a. refl }

add_empty : (sc : Sched) (s : ℕ) → IsQueue sc [] → IsAdded (s ∷ []) (add sc s)
unfolding add insert_at_tail insert_first point_next point_prev mark assign
add_empty sc s q =
    rw (q.marks s, q.head)
      (
        _,
        refl,
        record {
          head = refl;
          ring = ground arith;
          distinct = (refl, tt);
          marks = λ a. ground (arith, q.marks a);
        },
      )

already : (sc : Sched) (s : ℕ) → sc.scheduled s ≡ true → add sc s ≡ some sc
unfolding add
already sc s h = simp (h, if◌then◌else◌)

add_unmarked :
    (sc : Sched) (s : ℕ) {sc' : Sched}
    → sc.scheduled s ≡ false
    → insert_at_tail sc s ≡ some sc'
    → add sc s ≡ some (mark sc' s true)
unfolding add
add_unmarked sc s h e = simp (h, e, if◌then◌else◌)

insert_at_tail-some :
    (sc : Sched) (s x tail : ℕ)
    → sc.sched_head ≡ some x
    → sc.sched_prev x ≡ some tail
    → insert_at_tail sc s ≡ some (insert_between sc tail s x)
unfolding insert_at_tail
insert_at_tail-some sc s x tail h e = simp (insert_at_tail, h, e)

module _ (sc : Sched) (s x : ℕ) (xs : List ℕ) (q : IsQueue sc (x ∷ xs))
    (out : has s (x ∷ xs) ≡ false) where
  add-insert_between :
      (tail : ℕ)
      → sc.sched_prev x ≡ some tail
      → add sc s ≡ some (mark (insert_between sc tail s x) s true)
  add-insert_between tail e =
      add_unmarked sc s (q.marks s ∙ out) (insert_at_tail-some sc s x tail q.head e)

  add_behind : IsAdded (x ∷ (xs ++ s ∷ [])) (add sc s)
  unfolding insert_between point_next point_prev mark assign
  add_behind =
      let last = last_link sc.sched_next sc.sched_prev x xs x q.ring in
      let apart : last.0 ≢ s = λ e. ground (arith, e, last.2, out) in
      let walk =
        IsWalk-insert_between sc last.0 s x x xs last.1 (ground arith) (q.distinct.0) apart
          q.ring in
      (
        _,
        add-insert_between last.0 last.1.1,
        record {
          head = q.head;
          ring = walk;
          distinct = IsDistinct-snoc (x ∷ xs) s out q.distinct;
          marks = λ a. ground (arith, q.marks a, has-append a xs (s ∷ []));
        },
      )

-- Adding a stream follows no null pointer, and enqueues it.
pub add-enqueue :
    (sc : Sched) (s : ℕ) (xs : List ℕ) → IsQueue sc xs → IsAdded (enqueue s xs) (add sc s)
unfolding enqueue
add-enqueue sc s [] q = add_empty sc s q
add-enqueue sc s (x ∷ xs) q = elim (Bool-cases (has s (x ∷ xs))) [
  | inl there ↦ rw there (sc, already sc s (q.marks s ∙ there), q)
  | inr out ↦ rw out (add_behind sc s x xs q out)
]
