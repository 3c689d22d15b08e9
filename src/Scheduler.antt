-- ===== src/Scheduler.antt =====
-- The scheduler of a connection's streams: src/core/scheduler.c, over the fields `sched_next`, `sched_prev`
-- and `scheduled` of `nxp_stream_s` and `sched_head` of `nxp_conn`. A pointer to a stream is the stream's id;
-- the fields that the scheduler links are kept apart from the streams. `none` is a null pointer followed.
pub mod Ring
pub mod Queue
pub mod Turns
mod Tests
use nxp.Prelude.{
  ℕ, Bool, true, false, Option, none, some, not, ◌&&◌, ◌==◌, if◌then◌else◌, List, [], ◌∷◌,
}
use nxp.Stream.{Stream, unsent}

abbrev pub Ptr : Type 0
Ptr = Option ℕ

-- What every stream, by its id, holds for the scheduler, and the head.
pub record Sched : Type 0 where
  pub sched_head : Ptr
  pub sched_next : ℕ → Ptr
  pub sched_prev : ℕ → Ptr
  pub scheduled : ℕ → Bool

-- An assignment to the field of one stream.
unfoldable pub assign {ℓ} : {A : Type ℓ} → (ℕ → A) → ℕ → A → ℕ → A
assign f s v a = if a == s then v else f a

abbrev pub init : Sched
init = record {
  sched_head = none;
  sched_next = λ s. none;
  sched_prev = λ s. none;
  scheduled = λ s. false;
}

-- `s->sched_next = n` and `s->sched_prev = p`
unfoldable pub point_next : Sched → ℕ → Ptr → Sched
point_next sc s n = record sc { sched_next = assign sc.sched_next s n }

unfoldable pub point_prev : Sched → ℕ → Ptr → Sched
point_prev sc s p = record sc { sched_prev = assign sc.sched_prev s p }

unfoldable pub mark : Sched → ℕ → Bool → Sched
mark sc s b = record sc { scheduled = assign sc.scheduled s b }

-- The four assignments that put a stream between the tail and the head.
unfoldable pub insert_between : Sched → ℕ → ℕ → ℕ → Sched
insert_between sc tail s head =
    point_prev (point_next (point_prev (point_next sc s (some head)) s (some tail)) tail (some s))
      head (some s)

unfoldable pub insert_first : Sched → ℕ → Sched
insert_first sc s =
    let linked = point_prev (point_next sc s (some s)) s (some s) in
    record linked { sched_head = some s }

unfoldable pub insert_at_tail : Sched → ℕ → Option Sched
insert_at_tail sc s = elim sc.sched_head [
  | none ↦ some (insert_first sc s)
  | some head ↦ elim (sc.sched_prev head) [
    | none ↦ none
    | some tail ↦ some (insert_between sc tail s head)
  ]
]

-- `nxp_sched_add`
unfoldable pub add : Sched → ℕ → Option Sched
add sc s =
    if sc.scheduled s
    then some sc
    else elim (insert_at_tail sc s) [ none ↦ none | some sc' ↦ some (mark sc' s true) ]

unfoldable pub is_at : Ptr → ℕ → Bool
is_at none s = false
is_at (some a) s = a == s

-- The neighbours of a stream are linked with one another.
unfoldable pub linked : Sched → ℕ → ℕ → Sched
linked sc p n = point_prev (point_next sc p (some n)) n (some p)

unfoldable pub bypass : Sched → ℕ → ℕ → ℕ → Sched
bypass sc p s n =
    if is_at (linked sc p n).sched_head s
    then record (linked sc p n) { sched_head = some n }
    else linked sc p n

unfoldable pub take_out : Sched → ℕ → Option Sched
take_out sc s =
    if is_at (sc.sched_next s) s
    then some (record sc { sched_head = none })
    else elim (sc.sched_prev s) [
      | none ↦ none
      | some p ↦ elim (sc.sched_next s) [ none ↦ none | some n ↦ some (bypass sc p s n) ]
    ]

-- `nxp_sched_remove`
unfoldable pub remove : Sched → ℕ → Option Sched
remove sc s =
    if sc.scheduled s
    then elim (take_out sc s) [
      | none ↦ none
      | some sc' ↦ some (mark (point_prev (point_next sc' s none) s none) s false)
    ]
    else some sc

-- Whether there is nothing left to send.
unfoldable pub is_idle : Stream → Bool
is_idle s = (unsent s == 0) && not (s.send.fin && not s.send.fin_sent)

-- `nxp_sched_next`, over the streams; the result is the stream, or null.
unfoldable pub next : (ℕ → Stream) → Sched → Option (Sched × Ptr)
next stream_at sc = elim sc.sched_head [
  | none ↦ some (sc, none)
  | some s ↦
      let advanced = record sc { sched_head = sc.sched_next s } in
      if is_idle (stream_at s)
      then elim (remove advanced s) [ none ↦ none | some sc' ↦ some (sc', some s) ]
      else some (advanced, some s)
]
