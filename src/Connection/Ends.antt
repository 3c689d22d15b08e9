-- ===== src/Connection/Ends.antt =====
-- The loop over the scheduler of `nxp_conn_send` ends where no stream has a rate limit.
use nxp.Prelude.{
  ℕ, zero, suc, ◌+◌, ◌-◌, ◌<◌, ◌≤◌, ◌≡◌, sym, subst, arith, List, [], ◌∷◌, ◌++◌, Option, none, some,
  true, false, not, ◌&&◌, ◌==◌, ltb, if◌then◌else◌, if-elim, length, length-append,
}
use nxp.Flow
use nxp.Frame.Types.{StreamFrame}
use nxp.Frame.Encode.{write_stream}
use nxp.StreamRate.{StreamRate}
use nxp.Stream.{Stream, unsent, fill_frame, next_frame, frame_len}
use nxp.Scheduler.{Sched, assign, is_idle, next}
use nxp.Scheduler.Ring.{has}
use nxp.Scheduler.Queue.{IsQueue, enqueue, take_turn, add-enqueue, has-append}
use nxp.Scheduler.Turns.{next-take_turn}
use nxp.Connection.{max_stream_frames_per_pkt}
use nxp.Connection.Keeps.Sends.{rest_of, pack_streams_step}
use nxp.Connection.Send.{Packing, encoded}
use nxp.Connection.Send.Streams.{
  Turn, Packed, with_stream, with_sched, packed, charge, record_of, requeue, place, pack_frame,
  fill, fill_limited, serve, serve_next, turn, is_full, pack_streams, max_data_of,
}

abbrev pub AreUnlimited : (ℕ → Stream) → Type 0
AreUnlimited stream_at = (id : ℕ) → (stream_at id).rate_limit.enabled ≡ false

-- The turns that are left: one for each stream in the scheduler and for each record in the packet.
abbrev pub left : List ℕ → Packing → ℕ
left xs p = length xs + (max_stream_frames_per_pkt - length p.frames)

abbrev IsReady : ℕ → Packing → Type 0
IsReady n p =
    (xs : List ℕ) × IsQueue p.conn.sched xs × AreUnlimited p.conn.stream_at × (left xs p < n)

abbrev IsProgress : ℕ → Turn → Type 0
IsProgress n (Turn.again p) = IsReady n p
IsProgress n (Turn.stop p) = Unit
IsProgress n Turn.fault = ⊥

assign-AreUnlimited :
    (stream_at : ℕ → Stream) (x : ℕ) (s : Stream)
    → AreUnlimited stream_at
    → s.rate_limit.enabled ≡ false
    → AreUnlimited (assign stream_at x s)
unfolding assign
assign-AreUnlimited stream_at x s h e id =
    if-elim (λ (t : Stream). t.rate_limit.enabled ≡ false) (id == x) _ _ (λ here. e) (λ other. h id)

charge-unlimited :
    (s : Stream) (len : ℕ)
    → s.rate_limit.enabled ≡ false
    → (charge s len).rate_limit.enabled ≡ false
unfolding charge
charge-unlimited s len h =
    if-elim (λ (r : StreamRate). r.enabled ≡ false) s.rate_limit.enabled _ _
      (λ on. absurd (ground (arith, on, h))) (λ off. h)

module _ (n x : ℕ) (xs : List ℕ) (p : Packing) (free : AreUnlimited p.conn.stream_at)
    (few : length p.frames < max_stream_frames_per_pkt) where
  -- A stream that had nothing to send has left the scheduler.
  idle-IsProgress :
      (s : Stream)
      → IsQueue p.conn.sched xs
      → s.rate_limit.enabled ≡ false
      → left xs p < n
      → IsProgress n (Turn.again (with_stream p x s))
  unfolding with_stream
  idle-IsProgress s q e h = (xs, q, assign-AreUnlimited p.conn.stream_at x s free e, h)

  module _ (q : IsQueue p.conn.sched (xs ++ x ∷ [])) (h : left (xs ++ x ∷ []) p ≤ n) (s : Stream)
      (e : s.rate_limit.enabled ≡ false) (f : StreamFrame) where
    packed-ready :
        (out : List ℕ)
        → AreUnlimited (packed p x s f out).conn.stream_at
          × (left (xs ++ x ∷ []) (packed p x s f out) < n)
    unfolding packed
    packed-ready out = (
      assign-AreUnlimited p.conn.stream_at x (charge s f.length) free
          (charge-unlimited s f.length e),
      omega (arith, length-append p.frames (record_of f ∷ [])),
    )

    -- Its record is in the packet; a stream that is still in the scheduler keeps its place.
    requeue-IsProgress : (out : List ℕ) → IsProgress n (requeue (packed p x s f out) x)
    unfolding requeue enqueue packed
    requeue-IsProgress out =
        let ready = packed-ready out in
        let there : has x (xs ++ x ∷ []) ≡ true = ground (arith, has-append x xs (x ∷ [])) in
        let (sched, added, q') = add-enqueue p.conn.sched x (xs ++ x ∷ []) q in
        let kept : IsQueue sched (xs ++ x ∷ []) = rw there at q' in
        if-elim (IsProgress n) (is_idle ((packed p x s f out).conn.stream_at x)) _ _
          (λ idle. (xs ++ x ∷ [], q, ready.0, ready.1))
          (λ busy. rw added (xs ++ x ∷ [], kept, ready.0, ready.1))

    place-IsProgress : (r : Option (List ℕ)) → IsProgress n (place p x s f r)
    unfolding place
    place-IsProgress none = tt
    place-IsProgress (some out) = requeue-IsProgress out

-- A turn that is followed by another leaves fewer.
module _ (p : Packing) (now_us : ℕ) (free : AreUnlimited p.conn.stream_at)
    (few : length p.frames < max_stream_frames_per_pkt) where
  fill-IsProgress :
      (x : ℕ) (xs : List ℕ) (sched : Sched) (max_data : ℕ)
      → IsQueue sched (if is_idle (p.conn.stream_at x) then xs else xs ++ x ∷ [])
      → IsProgress (left (x ∷ xs) p) (fill (with_sched p sched) x (p.conn.stream_at x) max_data)
  unfolding fill pack_frame fill_frame next_frame with_sched is_idle
  fill-IsProgress x xs sched max_data q =
      let s = p.conn.stream_at x in
      let moved = record p { conn = record p.conn { sched = sched } } in
      if-elim (λ r. IsProgress (left (x ∷ xs) p) (pack_frame moved x s r)) (is_idle s) none
        (some (next_frame s (frame_len s max_data)))
        (λ idle.
          idle-IsProgress (left (x ∷ xs) p) x xs moved free few s (rw idle at q) (free x)
            (omega arith))
        (λ busy.
          place-IsProgress (left (x ∷ xs) p) x xs moved free few (rw busy at q)
            (omega (arith, length-append xs (x ∷ []))) (next_frame s (frame_len s max_data)).0
            (free x) (next_frame s (frame_len s max_data)).1
            (encoded moved (write_stream (next_frame s (frame_len s max_data)).1)))

  serve_next-IsProgress :
      (xs : List ℕ) (sched : Sched)
      → IsQueue sched (take_turn p.conn.stream_at xs).0
      → IsProgress
          (left xs p)
          (serve_next p (some (sched, (take_turn p.conn.stream_at xs).1)) now_us)
  unfolding take_turn serve_next serve fill_limited with_sched
  serve_next-IsProgress [] sched q = tt
  serve_next-IsProgress (x ∷ xs) sched q =
      let s = p.conn.stream_at x in
      let moved = record p { conn = record p.conn { sched = sched } } in
      if-elim (IsProgress (left (x ∷ xs) p))
        (ltb 0 (unsent s) && not (Flow.can_send p.conn.conn_flow 1)) _ _ (λ stuck. tt)
        (λ credit.
          if-elim (IsProgress (left (x ∷ xs) p)) s.rate_limit.enabled _ _
            (λ on. absurd (ground (arith, on, free x)))
            (λ off. fill-IsProgress x xs sched (max_data_of moved) q))

  turn-IsProgress : (xs : List ℕ) → IsQueue p.conn.sched xs → IsProgress (left xs p) (turn p now_us)
  unfolding turn
  turn-IsProgress xs q =
      let (sched, e, q') = next-take_turn p.conn.stream_at p.conn.sched xs q in
      subst (λ r. IsProgress (left xs p) (serve_next p r now_us)) (sym e)
        (serve_next-IsProgress xs sched q')

room-few : (p : Packing) → is_full p ≡ false → length p.frames < max_stream_frames_per_pkt
unfolding is_full
room-few p h = ground (arith, h)

abbrev pub IsPacked : Packed → Type 0
IsPacked (Packed.packed_all p) = Unit
IsPacked Packed.faulted = ⊥
IsPacked Packed.out_of_fuel = ⊥

module _ (now_us : ℕ) where
  rest_of-IsPacked :
      (fuel n : ℕ) (t : Turn)
      → n ≤ fuel
      → IsProgress n t
      → ((p : Packing) (xs : List ℕ)
          → IsQueue p.conn.sched xs
          → AreUnlimited p.conn.stream_at
          → left xs p < fuel
          → IsPacked (pack_streams fuel p now_us))
      → IsPacked (rest_of now_us fuel t)
  rest_of-IsPacked fuel n Turn.fault small h next = h
  rest_of-IsPacked fuel n (Turn.stop p) small h next = tt
  rest_of-IsPacked fuel n (Turn.again p) small (xs, q, free, less) next =
      next p xs q free (omega (arith, small, less))

  -- If no stream has a rate limit and the scheduler is a queue, the loop that packs stream frames ends: more
  -- turns than there are streams in the scheduler and free records for the packet's frames are enough.
  pub pack_streams-IsPacked :
      (fuel : ℕ) (p : Packing) (xs : List ℕ)
      → IsQueue p.conn.sched xs
      → AreUnlimited p.conn.stream_at
      → left xs p < fuel
      → IsPacked (pack_streams fuel p now_us)
  pack_streams-IsPacked zero p xs q free enough = absurd (omega arith)
  pack_streams-IsPacked (suc fuel) p xs q free enough =
      subst IsPacked (sym (pack_streams_step now_us fuel p)) (
        if-elim IsPacked (is_full p) _ _ (λ full. tt)
          (λ room.
            rest_of-IsPacked fuel (left xs p) (turn p now_us) (omega arith)
              (turn-IsProgress p now_us free (room-few p room) xs q) (pack_streams-IsPacked fuel)))
