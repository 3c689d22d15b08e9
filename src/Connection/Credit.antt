-- ===== src/Connection/Credit.antt =====
-- How much data `nxp_conn_send` sends: never more than the peer's credit for the connection.
use nxp.Prelude.{
  ℕ, zero, suc, ◌+◌, ◌<◌, ◌≤◌, sym, subst, arith, List, Option, none, some, not, ◌&&◌, ◌==◌, ltb,
  if-elim,
}
use nxp.Prelude.Word.{u64_mod}
use nxp.Flow
use nxp.Flow.{FlowCtrl}
use nxp.Frame.Types.{StreamFrame}
use nxp.Stream.{Stream, unsent, frame_len, next_frame, fill_frame}
use nxp.StreamRate
use nxp.Scheduler
use nxp.Scheduler.{Sched, Ptr, is_idle}
use nxp.Connection.Keeps.Sends.{rest_of, pack_streams_step}
use nxp.Connection.Send.{Packing}
use nxp.Connection.Send.Streams.{
  Turn, Packed, with_stream, with_sched, smaller, max_data_of, packed, requeue, place, pack_frame,
  fill, block, fill_limited, serve, serve_next, turn, is_full, pack_streams,
}

-- What was sent is within the limit of the peer.
abbrev pub IsWithin : FlowCtrl → Type 0
IsWithin f = (f.data_sent ≤ f.peer_max_data) × (f.peer_max_data < u64_mod)

abbrev IsPaid : Turn → Type 0
IsPaid (Turn.again p) = IsWithin p.conn.conn_flow
IsPaid (Turn.stop p) = IsWithin p.conn.conn_flow
IsPaid Turn.fault = Unit

frame_len_bound : (s : Stream) (n : ℕ) → frame_len s n ≤ n
unfolding frame_len
frame_len_bound s n = ground arith

max_data_of_bound :
    (p : Packing)
    → IsWithin p.conn.conn_flow
    → p.conn.conn_flow.data_sent + max_data_of p ≤ p.conn.conn_flow.peer_max_data
unfolding max_data_of smaller
max_data_of_bound p h = ground (arith, h.0)

smaller_bound : (a b : ℕ) → smaller a b ≤ a
unfolding smaller
smaller_bound a b = ground arith

packed-IsWithin :
    (p : Packing) (id : ℕ) (s : Stream) (f : StreamFrame) (out : List ℕ)
    → p.conn.conn_flow.data_sent + f.length ≤ p.conn.conn_flow.peer_max_data
    → p.conn.conn_flow.peer_max_data < u64_mod
    → IsWithin (packed p id s f out).conn.conn_flow
unfolding packed Flow.on_send
packed-IsWithin p id s f out h small = (omega arith, small)

requeue-IsPaid : (p : Packing) (id : ℕ) → IsWithin p.conn.conn_flow → IsPaid (requeue p id)
unfolding requeue
requeue-IsPaid p id h =
    if-elim IsPaid (is_idle (p.conn.stream_at id)) _ _ (λ idle. h)
      (λ busy. queued (Scheduler.add p.conn.sched id))
  where
    queued :
        (r : Option Sched)
        → IsPaid (elim r [
          | none ↦ Turn.fault
          | some sched ↦ Turn.again (record p { conn = record p.conn { sched = sched } })
        ])
    queued none = tt
    queued (some sched) = h

place-IsPaid :
    (p : Packing) (id : ℕ) (s : Stream) (f : StreamFrame) (r : Option (List ℕ))
    → p.conn.conn_flow.data_sent + f.length ≤ p.conn.conn_flow.peer_max_data
    → p.conn.conn_flow.peer_max_data < u64_mod
    → IsPaid (place p id s f r)
unfolding place with_stream
place-IsPaid p id s f none h small = (omega arith, small)
place-IsPaid p id s f (some out) h small =
    requeue-IsPaid (packed p id s f out) id (packed-IsWithin p id s f out h small)

fill-IsPaid :
    (p : Packing) (id : ℕ) (s : Stream) (n : ℕ)
    → p.conn.conn_flow.data_sent + n ≤ p.conn.conn_flow.peer_max_data
    → p.conn.conn_flow.peer_max_data < u64_mod
    → IsPaid (fill p id s n)
unfolding fill pack_frame fill_frame next_frame with_stream
fill-IsPaid p id s n h small =
    if-elim (λ r. IsPaid (pack_frame p id s r))
      (unsent s == 0 && not (s.send.fin && not s.send.fin_sent)) none
      (some (next_frame s (frame_len s n))) (λ nothing. (omega arith, small))
      (λ more. place-IsPaid p id _ _ _ (omega (arith, h, frame_len_bound s n)) small)

serve-IsPaid :
    (p : Packing) (id now_us : ℕ) → IsWithin p.conn.conn_flow → IsPaid (serve p id now_us)
unfolding serve fill_limited block
serve-IsPaid p id now_us h =
    let s = p.conn.stream_at id in
    let budget = StreamRate.budget (StreamRate.update s.rate_limit now_us) in
    if-elim IsPaid (ltb 0 (unsent s) && not (Flow.can_send p.conn.conn_flow 1)) _ _ (λ stuck. h)
      (λ free.
        if-elim IsPaid s.rate_limit.enabled _ _
          (λ limited.
            if-elim IsPaid (budget == 0) _ _ (λ spent. h)
              (λ left.
                fill-IsPaid p id _ (smaller (max_data_of p) budget)
                  (omega (arith, max_data_of_bound p h, smaller_bound (max_data_of p) budget)) h.1))
          (λ unlimited. fill-IsPaid p id s (max_data_of p) (max_data_of_bound p h) h.1))

serve_next-IsPaid :
    (p : Packing) (r : Option (Sched × Ptr)) (now_us : ℕ)
    → IsWithin p.conn.conn_flow
    → IsPaid (serve_next p r now_us)
unfolding serve_next with_sched
serve_next-IsPaid p none now_us h = tt
serve_next-IsPaid p (some (sched, none)) now_us h = h
serve_next-IsPaid p (some (sched, some id)) now_us h =
    serve-IsPaid (record p { conn = record p.conn { sched = sched } }) id now_us h

abbrev pub IsAllPaid : Packed → Type 0
IsAllPaid (Packed.packed_all p) = IsWithin p.conn.conn_flow
IsAllPaid Packed.faulted = Unit
IsAllPaid Packed.out_of_fuel = Unit

module _ (now_us : ℕ) where
  rest_of-IsAllPaid :
      (fuel : ℕ) (t : Turn)
      → IsPaid t
      → ((p : Packing) → IsWithin p.conn.conn_flow → IsAllPaid (pack_streams fuel p now_us))
      → IsAllPaid (rest_of now_us fuel t)
  rest_of-IsAllPaid fuel Turn.fault h more = tt
  rest_of-IsAllPaid fuel (Turn.stop p) h more = h
  rest_of-IsAllPaid fuel (Turn.again p) h more = more p h

  -- If what a connection has sent is within the peer's limit for the connection, it still is when the loop
  -- that packs stream frames is over, whichever streams it has served.
  pub pack_streams-IsWithin :
      (fuel : ℕ) (p : Packing) → IsWithin p.conn.conn_flow → IsAllPaid (pack_streams fuel p now_us)
  unfolding pack_streams turn
  pack_streams-IsWithin zero p h = if-elim IsAllPaid (is_full p) _ _ (λ full. h) (λ room. tt)
  pack_streams-IsWithin (suc fuel) p h = subst IsAllPaid (sym (pack_streams_step now_us fuel p)) (
      if-elim IsAllPaid (is_full p) _ _ (λ full. h)
        (λ room.
          rest_of-IsAllPaid fuel (turn p now_us)
            (serve_next-IsPaid p (Scheduler.next p.conn.stream_at p.conn.sched) now_us h)
            (pack_streams-IsWithin fuel)))
