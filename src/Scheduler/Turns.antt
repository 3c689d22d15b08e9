-- ===== src/Scheduler/Turns.antt =====
-- Turns: the scheduler is a queue through any sequence of calls, and every stream with data has its turn.
use nxp.Prelude.{
  ℕ, ◌≡◌, ◌∙◌, inl, inr, refl, ap, subst, List, [], ◌∷◌, ◌++◌, Option, none, some, true, false,
  if◌then◌else◌, Bool-cases, append-nil, append_assoc,
}
use nxp.Stream.{Stream}
use nxp.Scheduler.{Ptr, Sched, init, add, remove, is_idle, next}
use nxp.Scheduler.Ring.{has}
use nxp.Scheduler.Queue.{enqueue, dequeue, take_turn, IsQueue, init-IsQueue, add-enqueue}
use nxp.Scheduler.Queue.Remove.{remove-dequeue, advance, dequeue-append}

abbrev pub IsServed : (ℕ → Stream) → List ℕ → Option (Sched × Ptr) → Type 0
IsServed stream_at xs r =
    (sc : Sched) × (r ≡ some (sc, (take_turn stream_at xs).1))
    × IsQueue sc (take_turn stream_at xs).0

abbrev advanced : Sched → ℕ → Sched
advanced sc x = record sc { sched_head = sc.sched_next x }

next-none :
    (stream_at : ℕ → Stream) (sc : Sched)
    → sc.sched_head ≡ none
    → next stream_at sc ≡ some (sc, none)
unfolding next
next-none stream_at sc h = simp (next, h)

pub next-stays :
    (stream_at : ℕ → Stream) (sc : Sched) (x : ℕ)
    → sc.sched_head ≡ some x
    → is_idle (stream_at x) ≡ false
    → next stream_at sc ≡ some (advanced sc x, some x)
unfolding next
next-stays stream_at sc x h busy = simp (next, h, busy, if◌then◌else◌)

next-leaves :
    (stream_at : ℕ → Stream) (sc : Sched) (x : ℕ) {sc' : Sched}
    → sc.sched_head ≡ some x
    → is_idle (stream_at x) ≡ true
    → remove (advanced sc x) x ≡ some sc'
    → next stream_at sc ≡ some (sc', some x)
unfolding next
next-leaves stream_at sc x h done e = simp (next, h, done, e, if◌then◌else◌)

dequeue_last : (x : ℕ) (xs : List ℕ) → has x xs ≡ false → dequeue x (xs ++ x ∷ []) ≡ xs
dequeue_last x xs h = dequeue-append x xs [] h ∙ append-nil xs

-- A turn follows no null pointer, and is the turn of the queue.
pub next-take_turn :
    (stream_at : ℕ → Stream) (sc : Sched) (xs : List ℕ)
    → IsQueue sc xs
    → IsServed stream_at xs (next stream_at sc)
unfolding take_turn
next-take_turn stream_at sc [] q = (sc, next-none stream_at sc q.head, q)
next-take_turn stream_at sc (x ∷ xs) q = elim (Bool-cases (is_idle (stream_at x))) [
  | inl done ↦
      let (sc', e, left) = remove-dequeue (advanced sc x) x (xs ++ x ∷ []) (advance sc x xs q) in
      rw done (
        sc',
        next-leaves stream_at sc x q.head done e,
        subst (IsQueue sc') (dequeue_last x xs q.distinct.0) left,
      )
  | inr busy ↦ rw busy (advanced sc x, next-stays stream_at sc x q.head busy, advance sc x xs q)
]

pub data Call : Type 0 where
  add_stream : ℕ → Call
  remove_stream : ℕ → Call
  turn : (ℕ → Stream) → Call

unfoldable pub call : Sched → Call → Option (Sched × Ptr)
call sc (Call.add_stream s) = elim (add sc s) [ none ↦ none | some sc' ↦ some (sc', none) ]
call sc (Call.remove_stream s) = elim (remove sc s) [ none ↦ none | some sc' ↦ some (sc', none) ]
call sc (Call.turn stream_at) = next stream_at sc

-- A run of calls, with what each returns.
unfoldable pub run : Sched → List Call → Option (Sched × List Ptr)
run sc [] = some (sc, [])
run sc (c ∷ cs) = elim (call sc c) [
  | none ↦ none
  | some (sc', r) ↦ elim (run sc' cs) [ none ↦ none | some (sc'', rs) ↦ some (sc'', r ∷ rs) ]
]

-- The same calls on the queue.
unfoldable pub queue_call : List ℕ → Call → List ℕ × Ptr
queue_call xs (Call.add_stream s) = (enqueue s xs, none)
queue_call xs (Call.remove_stream s) = (dequeue s xs, none)
queue_call xs (Call.turn stream_at) = take_turn stream_at xs

unfoldable pub queue_run : List ℕ → List Call → List ℕ × List Ptr
queue_run xs [] = (xs, [])
queue_run xs (c ∷ cs) =
    let rest = queue_run (queue_call xs c).0 cs in (rest.0, (queue_call xs c).1 ∷ rest.1)

call-queue_call :
    (sc : Sched) (xs : List ℕ) (c : Call)
    → IsQueue sc xs
    → (sc' : Sched) × (call sc c ≡ some (sc', (queue_call xs c).1))
      × IsQueue sc' (queue_call xs c).0
unfolding call queue_call
call-queue_call sc xs (Call.add_stream s) q =
    let (sc', e, q') = add-enqueue sc s xs q in (sc', simp (call, e), q')
call-queue_call sc xs (Call.remove_stream s) q =
    let (sc', e, q') = remove-dequeue sc s xs q in (sc', simp (call, e), q')
call-queue_call sc xs (Call.turn stream_at) q = next-take_turn stream_at sc xs q

run-queue_run_from :
    (sc : Sched) (xs : List ℕ) (cs : List Call)
    → IsQueue sc xs
    → (sc' : Sched) × (run sc cs ≡ some (sc', (queue_run xs cs).1))
      × IsQueue sc' (queue_run xs cs).0
unfolding run queue_run
run-queue_run_from sc xs [] q = (sc, refl, q)
run-queue_run_from sc xs (c ∷ cs) q =
    let (sc', e, q') = call-queue_call sc xs c q in
    let (sc'', e', q'') = run-queue_run_from sc' (queue_call xs c).0 cs q' in
    (sc'', simp (run, e, e'), q'')

-- Any sequence of calls on an empty scheduler follows no null pointer, returns what the queue returns (a turn:
-- its head, which goes to the end if it has data, and leaves the queue if it has none), and leaves the streams
-- of the queue linked in a circle, in its order, each once, and no other marked.
pub run-queue_run :
    (cs : List Call)
    → (sc : Sched) × (run init cs ≡ some (sc, (queue_run [] cs).1)) × IsQueue sc (queue_run [] cs).0
run-queue_run cs = run-queue_run_from init [] cs init-IsQueue

unfoldable pub all_turns : (ℕ → Stream) → List ℕ → List Call
all_turns stream_at [] = []
all_turns stream_at (x ∷ xs) = Call.turn stream_at ∷ all_turns stream_at xs

abbrev pub pointers : List ℕ → List Ptr
pointers [] = []
pointers (x ∷ xs) = some x ∷ pointers xs

abbrev pub AreBusy : (ℕ → Stream) → List ℕ → Type 0
AreBusy stream_at [] = Unit
AreBusy stream_at (x ∷ xs) = (is_idle (stream_at x) ≡ false) × AreBusy stream_at xs

queue_run-all_turns :
    (stream_at : ℕ → Stream) (xs done : List ℕ)
    → AreBusy stream_at xs
    → queue_run (xs ++ done) (all_turns stream_at xs) ≡ (done ++ xs, pointers xs)
unfolding queue_run queue_call take_turn all_turns
queue_run-all_turns stream_at [] done busy = rw append-nil refl
queue_run-all_turns stream_at (x ∷ xs) done busy =
    rw
      (
        busy.0,
        append_assoc xs done (x ∷ []),
        queue_run-all_turns stream_at xs (done ++ x ∷ []) busy.1,
        append_assoc done (x ∷ []) xs,
      )
      refl

-- When every stream of the queue has data, as many turns as there are streams serve each of them once, in
-- order, and leave the queue as it was.
pub run-all_turns :
    (stream_at : ℕ → Stream) (sc : Sched) (xs : List ℕ)
    → IsQueue sc xs
    → AreBusy stream_at xs
    → (sc' : Sched) × (run sc (all_turns stream_at xs) ≡ some (sc', pointers xs)) × IsQueue sc' xs
run-all_turns stream_at sc xs q busy =
    let (sc', e, q') = run-queue_run_from sc xs (all_turns stream_at xs) q in
    let turns : queue_run xs (all_turns stream_at xs) ≡ (xs, pointers xs) =
      subst (λ r. queue_run r (all_turns stream_at xs) ≡ (xs, pointers xs)) (append-nil xs)
        (queue_run-all_turns stream_at xs [] busy) in
    (sc', e ∙ ap (λ r. some (sc', r.1)) turns, subst (λ r. IsQueue sc' r.0) turns q')
