-- ===== src/Scheduler/Ring.antt =====
-- Streams linked in a circle, and what the assignments of the scheduler do to the circle.
use nxp.Prelude.{
  ℕ, ◌≡◌, ◌≢◌, subst, arith, List, [], ◌∷◌, ◌++◌, some, Bool, true, false, ◌==◌, ◌||◌, append-nil,
}
use nxp.Scheduler.{Ptr, Sched, assign, point_next, point_prev, insert_between, linked}

abbrev pub has : ℕ → List ℕ → Bool
has a [] = false
has a (x ∷ xs) = (a == x) || has a xs

abbrev pub IsDistinct : List ℕ → Type 0
IsDistinct [] = Unit
IsDistinct (x ∷ xs) = (has x xs ≡ false) × IsDistinct xs

module _ (nx pv : ℕ → Ptr) where
  abbrev pub IsLinked : ℕ → ℕ → Type 0
  IsLinked x y = (nx x ≡ some y) × (pv y ≡ some x)

  -- From one stream the links lead through the listed ones to another, and back.
  abbrev pub IsWalk : ℕ → List ℕ → ℕ → Type 0
  IsWalk x [] y = IsLinked x y
  IsWalk x (z ∷ zs) y = IsLinked x z × IsWalk z zs y

  abbrev pub IsRing : List ℕ → Type 0
  IsRing [] = Unit
  IsRing (x ∷ xs) = IsWalk x xs x

  IsWalk-append :
      (x : ℕ) (xs : List ℕ) (z : ℕ) (ys : List ℕ) (y : ℕ)
      → IsWalk x xs z
      → IsWalk z ys y
      → IsWalk x (xs ++ z ∷ ys) y
  IsWalk-append x [] z ys y v w = (v, w)
  IsWalk-append x (a ∷ xs) z ys y (l, v) w = (l, IsWalk-append a xs z ys y v w)

  IsWalk-split :
      (x : ℕ) (xs : List ℕ) (z : ℕ) (ys : List ℕ) (y : ℕ)
      → IsWalk x (xs ++ z ∷ ys) y
      → IsWalk x xs z × IsWalk z ys y
  IsWalk-split x [] z ys y w = w
  IsWalk-split x (a ∷ xs) z ys y (l, w) =
      let both = IsWalk-split a xs z ys y w in ((l, both.0), both.1)

  -- A circle may be read from any of its streams.
  pub rotate : (xs ys : List ℕ) → IsRing (xs ++ ys) → IsRing (ys ++ xs)
  rotate [] ys r = rw append-nil r
  rotate (x ∷ xs) [] r = subst IsRing (append-nil (x ∷ xs)) r
  rotate (x ∷ xs) (y ∷ ys) r =
      let both = IsWalk-split x xs y ys x r in IsWalk-append y ys x xs y both.1 both.0

  pub last_link :
      (x : ℕ) (xs : List ℕ) (y : ℕ)
      → IsWalk x xs y
      → (l : ℕ) × IsLinked l y × (has l (x ∷ xs) ≡ true)
  last_link x [] y w = (x, w, ground arith)
  last_link x (z ∷ zs) y (l, w) =
      let rest = last_link z zs y w in (rest.0, rest.1, ground (arith, rest.2))

-- The assignments that add a stream lengthen a walk that ended at the head.
pub IsWalk-insert_between :
    (sc : Sched) (tail s head x : ℕ) (xs : List ℕ)
    (t : IsLinked sc.sched_next sc.sched_prev tail head)
    → has s (x ∷ head ∷ xs) ≡ false
    → has head xs ≡ false
    → tail ≢ s
    → IsWalk sc.sched_next sc.sched_prev x xs head
    → let sc' = insert_between sc tail s head in
      IsWalk sc'.sched_next sc'.sched_prev x (xs ++ s ∷ []) head
unfolding insert_between point_next point_prev assign
IsWalk-insert_between sc tail s head x [] t fresh d ne w = ground arith
IsWalk-insert_between sc tail s head x (z ∷ zs) t fresh d ne (l, w) =
    (ground arith, IsWalk-insert_between sc tail s head z zs t (ground arith) (ground arith) ne w)

-- The assignments that link the neighbours of `s` turn a walk to `s` into one to the stream behind it.
pub IsWalk-bypass :
    (sc : Sched) (p s n x : ℕ) (xs : List ℕ)
    → IsLinked sc.sched_next sc.sched_prev p s
    → has s (x ∷ xs) ≡ false
    → has n xs ≡ false
    → IsWalk sc.sched_next sc.sched_prev x xs s
    → let sc' = linked sc p n in IsWalk sc'.sched_next sc'.sched_prev x xs n
unfolding linked point_next point_prev assign
IsWalk-bypass sc p s n x [] l out d w = ground arith
IsWalk-bypass sc p s n x (z ∷ zs) l out d (k, w) =
    (ground arith, IsWalk-bypass sc p s n z zs l (ground arith) (ground arith) w)
