-- ===== src/Scheduler/Tests.antt =====
-- Runs of the scheduler, and the theorems at concrete calls.
use nxp.Prelude.{arith, ℕ, ◌≡◌, refl, List, [], ◌∷◌, some, none, true, ◌==◌, if◌then◌else◌}
use nxp.Stream
use nxp.Stream.{Stream, StreamType, unsent}
use nxp.Scheduler.{
  Sched, init, assign, add, insert_at_tail, insert_first, insert_between, point_next, point_prev,
  mark, is_idle,
}
use nxp.Scheduler.Queue.{IsQueue, enqueue, dequeue, take_turn}
use nxp.Scheduler.Turns.{
  Call, run, queue_run, queue_call, run-queue_run, all_turns, pointers, run-all_turns,
}

-- Nothing is written on stream 4; the others have five bytes to send.
abbrev half_busy : ℕ → Stream
half_busy id =
    let s = Stream.create id StreamType.reliable 1000 1000 in
    record s { send = record s.send { write_offset = if id == 4 then 0 else 5 } }

abbrev all_busy : ℕ → Stream
all_busy id =
    let s = Stream.create id StreamType.reliable 1000 1000 in
    record s { send = record s.send { write_offset = 5 } }

abbrev calls : List Call
calls =
    Call.add_stream 4
    ∷ Call.add_stream 9
    ∷ Call.add_stream 1
    ∷ Call.turn half_busy
    ∷ Call.add_stream 9
    ∷ Call.turn half_busy
    ∷ Call.remove_stream 1
    ∷ Call.turn half_busy
    ∷ []

-- Stream 4 has nothing to send, and leaves; stream 9 stays behind 1, until 1 is removed.
served :
    queue_run [] calls ≡ (9 ∷ [], none ∷ none ∷ none ∷ some 4 ∷ none ∷ some 9 ∷ none ∷ some 9 ∷ [])
unfolding queue_run queue_call enqueue dequeue take_turn is_idle unsent Stream.create
served = refl

run-queue_run_example :
    (sc : Sched) × (run init calls ≡ some (sc, (queue_run [] calls).1))
    × IsQueue sc (queue_run [] calls).0
run-queue_run_example = run-queue_run calls

-- Streams 9 and 4, in this order.
abbrev two_streams : Sched
two_streams = mark (insert_between (mark (insert_first init 9) 9 true) 9 4 9) 4 true

adding : (elim (add init 9) [ none ↦ none | some sc ↦ add sc 4 ]) ≡ some two_streams
unfolding add insert_at_tail insert_first insert_between point_next point_prev mark assign
adding = refl

two_streams-IsQueue : IsQueue two_streams (9 ∷ 4 ∷ [])
unfolding insert_first insert_between point_next point_prev mark assign
two_streams-IsQueue = record {
  head = refl;
  ring = ((refl, refl), (refl, refl));
  distinct = (refl, (refl, tt));
  marks = λ a. ground arith;
}

run-all_turns_example :
    (sc : Sched) × (run two_streams (all_turns all_busy (9 ∷ 4 ∷ []))
      ≡ some (sc, pointers (9 ∷ 4 ∷ [])))
    × IsQueue sc (9 ∷ 4 ∷ [])
unfolding is_idle unsent Stream.create
run-all_turns_example =
    run-all_turns all_busy two_streams (9 ∷ 4 ∷ []) two_streams-IsQueue (refl, (refl, tt))
