-- ===== src/Scheduler/Queue/Remove.antt =====
-- What taking a stream out of the circle does to the queue.
use nxp.Prelude.{
  ℕ, ◌≡◌, ◌∙◌, inl, inr, refl, sym, ap, subst, arith, List, [], ◌∷◌, ◌++◌, none, some, true, false,
  ◌==◌, ==→eq, if◌then◌else◌, Bool-cases, append-nil,
}
use nxp.Scheduler.{
  Ptr, Sched, assign, point_next, point_prev, mark, is_at, linked, bypass, take_out, remove,
}
use nxp.Scheduler.Ring.{has, IsDistinct, IsWalk, IsRing, rotate, last_link, IsWalk-bypass}
use nxp.Scheduler.Queue.{dequeue, first, IsQueue, IsAdded, has-append}

has-split :
    (s : ℕ) (xs : List ℕ)
    → has s xs ≡ true
    → (front : List ℕ) × (back : List ℕ) × (xs ≡ front ++ s ∷ back) × (has s front ≡ false)
has-split s [] h = ground arith
has-split s (x ∷ xs) h = elim (Bool-cases (s == x)) [
  | inl e ↦ ([], xs, rw (==→eq s x e) refl, refl)
  | inr e ↦
      let (front, back, at, out) = has-split s xs (ground arith) in
      (x ∷ front, back, ap (λ r. x ∷ r) at, ground arith)
]

pub dequeue-append :
    (s : ℕ) (front back : List ℕ)
    → has s front ≡ false
    → dequeue s (front ++ s ∷ back) ≡ front ++ back
unfolding dequeue
dequeue-append s [] back h = ground arith
dequeue-append s (a ∷ front) back h = ground (arith, dequeue-append s front back)

IsDistinct-append :
    (front : List ℕ) (s : ℕ) (back : List ℕ)
    → IsDistinct (front ++ s ∷ back)
    → IsDistinct (front ++ back) × (has s (front ++ back) ≡ false)
IsDistinct-append [] s back d = (d.1, d.0)
IsDistinct-append (a ∷ front) s back d =
    let rest = IsDistinct-append front s back d.1 in
    (
      (ground (arith, has-append a front back, has-append a front (s ∷ back), d.0), rest.0),
      ground (arith, rest.1, d.0, has-append a front (s ∷ back)),
    )

-- What is left of the circle when a stream that is not alone is taken out.
module _ (sc : Sched) (s n : ℕ) (ns : List ℕ) (p : ℕ) where
  IsRing-linked :
      IsRing sc.sched_next sc.sched_prev (s ∷ n ∷ ns)
      → sc.sched_prev s ≡ some p
      → has s (n ∷ ns) ≡ false
      → has n ns ≡ false
      → IsRing (linked sc p n).sched_next (linked sc p n).sched_prev (n ∷ ns)
  IsRing-linked r e out d =
      let last = last_link sc.sched_next sc.sched_prev n ns s r.1 in
      IsWalk-bypass sc p s n n ns (ground (arith, last.1.0, last.1.1, e)) out d r.1

IsWalk-spare :
    (nx pv : ℕ → Ptr) (s x : ℕ) (xs : List ℕ) (y : ℕ)
    → has s (x ∷ y ∷ xs) ≡ false
    → IsWalk nx pv x xs y
    → IsWalk (assign nx s none) (assign pv s none) x xs y
unfolding assign
IsWalk-spare nx pv s x [] y out w = ground arith
IsWalk-spare nx pv s x (z ∷ zs) y out (l, w) =
    (ground arith, IsWalk-spare nx pv s z zs y (ground arith) w)

IsRing-spare :
    (nx pv : ℕ → Ptr) (s : ℕ) (xs : List ℕ)
    → has s xs ≡ false
    → IsRing nx pv xs
    → IsRing (assign nx s none) (assign pv s none) xs
IsRing-spare nx pv s [] out r = tt
IsRing-spare nx pv s (x ∷ xs) out r = IsWalk-spare nx pv s x xs x (ground arith) r

unfoldable clear : Sched → ℕ → Sched
clear sc s = mark (point_prev (point_next sc s none) s none) s false

remove-clear :
    (sc : Sched) (s : ℕ) {sc' : Sched}
    → sc.scheduled s ≡ true
    → take_out sc s ≡ some sc'
    → remove sc s ≡ some (clear sc' s)
unfolding remove clear
remove-clear sc s h e = simp (h, e, if◌then◌else◌)

take_out-alone :
    (sc : Sched) (s : ℕ)
    → sc.sched_next s ≡ some s
    → take_out sc s ≡ some (record sc { sched_head = none })
unfolding take_out is_at
take_out-alone sc s h =
    let yes : (s == s) ≡ true = ground arith in simp (take_out, h, yes, if◌then◌else◌)

take_out-bypass :
    (sc : Sched) (s p n : ℕ)
    → sc.sched_next s ≡ some n
    → sc.sched_prev s ≡ some p
    → (n == s) ≡ false
    → take_out sc s ≡ some (bypass sc p s n)
unfolding take_out is_at
take_out-bypass sc s p n h e other = simp (take_out, h, e, other, if◌then◌else◌)

bypass-links :
    (sc : Sched) (p s n : ℕ)
    → ((bypass sc p s n).sched_next ≡ (linked sc p n).sched_next)
      × ((bypass sc p s n).sched_prev ≡ (linked sc p n).sched_prev)
      × ((bypass sc p s n).scheduled ≡ sc.scheduled)
unfolding bypass linked point_next point_prev
bypass-links sc p s n = ground arith

IsDistinct-insert :
    (s : ℕ) (front back : List ℕ)
    → IsDistinct (front ++ back)
    → has s (front ++ back) ≡ false
    → IsDistinct (front ++ s ∷ back)
IsDistinct-insert s [] back d out = (out, d)
IsDistinct-insert s (a ∷ front) back d out = (
  ground (arith, has-append a front back, has-append a front (s ∷ back), d.0, out),
  IsDistinct-insert s front back d.1 (ground arith),
)

IsDistinct-swap : (xs ys : List ℕ) → IsDistinct (xs ++ ys) → IsDistinct (ys ++ xs)
IsDistinct-swap [] ys d = rw append-nil d
IsDistinct-swap (x ∷ xs) ys d =
    IsDistinct-insert x ys xs (IsDistinct-swap xs ys d.1)
      (ground (arith, has-append x xs ys, has-append x ys xs, d.0))

remove_alone : (sc : Sched) (s : ℕ) → IsQueue sc (s ∷ []) → IsAdded [] (remove sc s)
unfolding clear mark point_prev point_next assign
remove_alone sc s q = (
  _,
  remove-clear sc s (ground (arith, q.marks s)) (take_out-alone sc s q.ring.0),
  record { head = refl; ring = tt; distinct = tt; marks = λ a. ground (arith, q.marks a) },
)

first-bypass :
    (sc : Sched) (p s n : ℕ) (ns front back : List ℕ)
    → sc.sched_head ≡ first (front ++ s ∷ back)
    → has s front ≡ false
    → back ++ front ≡ n ∷ ns
    → (bypass sc p s n).sched_head ≡ first (front ++ back)
unfolding bypass linked point_next point_prev is_at
first-bypass sc p s n ns [] [] h out e = absurd (ground (arith, e))
first-bypass sc p s n ns [] (b ∷ back) h out e = ground (arith, h, e)
first-bypass sc p s n ns (x ∷ front) back h out e = ground (arith, h, out)

module _ (sc : Sched) (s n : ℕ) (ns front back : List ℕ) (q : IsQueue sc (front ++ s ∷ back))
    (out : has s front ≡ false) (e : back ++ front ≡ n ∷ ns) where
  remove_among : IsAdded (front ++ back) (remove sc s)
  unfolding clear mark point_prev point_next assign
  remove_among =
      let ring : IsRing sc.sched_next sc.sched_prev (s ∷ n ∷ ns) =
        subst (λ r. IsRing sc.sched_next sc.sched_prev (s ∷ r)) e
          (rotate sc.sched_next sc.sched_prev front (s ∷ back) q.ring) in
      let parts = IsDistinct-append front s back q.distinct in
      let rest : IsDistinct (n ∷ ns) = subst IsDistinct e (IsDistinct-swap front back parts.0) in
      let gone : has s (n ∷ ns) ≡ false =
        subst (λ r. has s r ≡ false) e
          (ground (arith, has-append s front back, has-append s back front, parts.1)) in
      let last = last_link sc.sched_next sc.sched_prev n ns s ring.1 in
      let links = bypass-links sc last.0 s n in
      let walk = IsRing-linked sc s n ns last.0 ring last.1.1 gone rest.0 in
      (
        _,
        remove-clear sc s (q.marks s ∙ ground (arith, has-append s front (s ∷ back)))
            (take_out-bypass sc s last.0 n ring.0.0 last.1.1 (ground arith)),
        record {
          head = first-bypass sc last.0 s n ns front back q.head out e;
          ring =
              rw (links.0, links.1)
                (IsRing-spare (linked sc last.0 n).sched_next (linked sc last.0 n).sched_prev s
                  (front ++ back) parts.1
                  (rotate (linked sc last.0 n).sched_next (linked sc last.0 n).sched_prev back front
                    (subst (IsRing (linked sc last.0 n).sched_next (linked sc last.0 n).sched_prev)
                      (sym e) walk)));
          distinct = parts.0;
          marks = λ a. rw links.2 (
              ground (
                arith,
                q.marks a,
                has-append a front back,
                has-append a front (s ∷ back),
                parts.1,
              ));
        },
      )

remove_one :
    (sc : Sched) (s : ℕ) (front back : List ℕ)
    → IsQueue sc (front ++ s ∷ back)
    → has s front ≡ false
    → IsAdded (front ++ back) (remove sc s)
remove_one sc s [] [] q out = remove_alone sc s q
remove_one sc s (a ∷ front) [] q out = remove_among sc s a front (a ∷ front) [] q out refl
remove_one sc s front (b ∷ back) q out =
    remove_among sc s b (back ++ front) front (b ∷ back) q out refl

unmarked : (sc : Sched) (s : ℕ) → sc.scheduled s ≡ false → remove sc s ≡ some sc
unfolding remove
unmarked sc s h = simp (h, if◌then◌else◌)

dequeue-none : (s : ℕ) (xs : List ℕ) → has s xs ≡ false → dequeue s xs ≡ xs
unfolding dequeue
dequeue-none s [] h = refl
dequeue-none s (x ∷ xs) h = ground (arith, dequeue-none s xs)

-- Removing a stream follows no null pointer, and takes it out of the queue, the others in their order.
pub remove-dequeue :
    (sc : Sched) (s : ℕ) (xs : List ℕ) → IsQueue sc xs → IsAdded (dequeue s xs) (remove sc s)
remove-dequeue sc s xs q = elim (Bool-cases (has s xs)) [
  | inl there ↦
      let (front, back, at, out) = has-split s xs there in
      subst (λ r. IsAdded r (remove sc s))
        (sym (ap (dequeue s) at ∙ dequeue-append s front back out))
        (remove_one sc s front back (subst (IsQueue sc) at q) out)
  | inr out ↦ rw (dequeue-none s xs out) (sc, unmarked sc s (q.marks s ∙ out), q)
]

-- The head moved on: the circle read from the next stream.
pub advance :
    (sc : Sched) (x : ℕ) (xs : List ℕ)
    → IsQueue sc (x ∷ xs)
    → IsQueue (record sc { sched_head = sc.sched_next x }) (xs ++ x ∷ [])
advance sc x [] q = record {
  head = q.ring.0;
  ring = q.ring;
  distinct = q.distinct;
  marks = q.marks;
}
advance sc x (y ∷ xs) q = record {
  head = q.ring.0.0;
  ring = rotate sc.sched_next sc.sched_prev (x ∷ []) (y ∷ xs) q.ring;
  distinct = IsDistinct-swap (x ∷ []) (y ∷ xs) q.distinct;
  marks = λ a. ground (arith, q.marks a, has-append a (y ∷ xs) (x ∷ []));
}
