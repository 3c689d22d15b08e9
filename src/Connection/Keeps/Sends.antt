-- ===== src/Connection/Keeps/Sends.antt =====
-- Sending keeps the connection in order, and follows no null pointer.
use nxp.Prelude.{
  ℕ, zero, suc, ◌≡◌, inl, inr, refl, sym, subst, arith, List, Option, none, some, Bool, true, false,
  not, ◌&&◌, ◌==◌, ltb, if◌then◌else◌, if-elim, Option-cases, length,
}
use nxp.Codec.{Writer}
use nxp.Frame.Types.{StreamFrame}
use nxp.Frame.Encode.{write_stream, write_max_data, write_new_connection_id}
use nxp.Flow
use nxp.Stream
use nxp.Stream.{Stream, unsent}
use nxp.StreamRate
use nxp.Migration.{CidEntry}
use nxp.Scheduler.{Sched, Ptr, is_idle}
use nxp.Scheduler.Queue.{IsQueue, take_turn, add-enqueue, enqueue}
use nxp.Scheduler.Turns.{next-take_turn}
use nxp.Connection.{Conn}
use nxp.Connection.States.{ConnState}
use nxp.Connection.Send.{
  Packing, append_frame, add_frame, append_ack, encoded, encoded_ack, add_ack, closing_sent,
  add_close, add_ping, add_max_data, add_path_response, add_path_challenge, pop_last, cid_frame,
  offered, offer_cid, add_new_cids, add_retire_cid, add_echo, add_heartbeat, add_migration,
  add_control,
}
use nxp.Connection.Send.Streams.{
  Turn, Packed, with_stream, with_sched, packed, requeue, place, serve_next, pack_frame, fill,
  block, fill_limited, serve, turn, is_full, pack_streams,
}
use nxp.Connection.Keeps.{
  Keeps, Keeps-same, Keeps-self, Keeps-trans, set_conn_state-Keeps, set_conn_state-sched, HasQueue,
  Follows,
}
use nxp.Connection.Keeps.Frames.{same-Follows}

abbrev Stays : Packing → Packing → Type 0
Stays p p' = HasQueue p.conn → Follows p.conn p'.conn

Stays-same : (p : Packing) → Stays p p
Stays-same p q = (Keeps-self p.conn, q)

Stays-trans : (a b c : Packing) → Stays a b → Stays b c → Stays a c
Stays-trans a b c h k q = let one = h q in let two = k one.1 in (Keeps-trans one.0 two.0, two.1)

-- A reset of flags changes nothing that matters here.
abbrev IsReset : (Conn → Conn) → Type 0
IsReset sent = (c : Conn) → HasQueue c → Follows c (sent c)

append_frame-Stays :
    (p : Packing) (sent : Conn → Conn) (r : Option (List ℕ))
    → IsReset sent
    → Stays p (append_frame p sent r)
unfolding append_frame
append_frame-Stays p sent none h q = (Keeps-self p.conn, q)
append_frame-Stays p sent (some out) h q = h p.conn q

add_frame-Stays :
    (p : Packing) (due : Bool) (w : Writer) (sent : Conn → Conn)
    → IsReset sent
    → Stays p (add_frame p due w sent)
unfolding add_frame
add_frame-Stays p true w sent h = append_frame-Stays p sent (encoded p w) h
add_frame-Stays p false w sent h = Stays-same p

append_ack-Stays : (p : Packing) (r : Option (List ℕ)) → Stays p (append_ack p r)
unfolding append_ack
append_ack-Stays p none q = (Keeps-self p.conn, q)
append_ack-Stays p (some out) q = same-Follows p.conn _ q refl refl refl refl refl refl refl

add_ack-Stays : (p : Packing) (now_us : ℕ) → Stays p (add_ack p now_us)
unfolding add_ack
add_ack-Stays p now_us q =
    if-elim (λ r. Follows p.conn r.conn) p.conn.ack.ack_needed _ p
      (λ due. append_ack-Stays p (encoded_ack p now_us) q) (λ idle. (Keeps-self p.conn, q))

closing_sent-IsReset : IsReset closing_sent
unfolding closing_sent
closing_sent-IsReset c q =
    let cleared = record c { send_conn_close = false } in
    (
      Keeps-trans (Keeps-same c cleared refl refl refl refl refl refl)
          (set_conn_state-Keeps cleared ConnState.closing),
      (q.0, rw (set_conn_state-sched cleared ConnState.closing) q.1),
    )

-- An update that is due is the only thing that moves the window.
update-Follows :
    (c : Conn)
    → HasQueue c
    → Flow.should_update c.conn_flow ≡ true
    → Follows c (record c { conn_flow = (Flow.get_update c.conn_flow).0 })
unfolding Flow.should_update Flow.get_update
update-Follows c q due = (
  record {
    forward = omega arith;
    window = λ h. absurd (ground (arith, h, due));
    credit = omega arith;
    side = refl;
    known = λ id h. h;
    opened = λ id h. inl h;
    bidi = refl;
    uni = refl;
  },
  q,
)

add_max_data-Stays : (p : Packing) → Stays p (add_max_data p)
unfolding add_max_data
add_max_data-Stays p q =
    let update = Flow.get_update p.conn.conn_flow in
    let updated = record p { conn = record p.conn { conn_flow = update.0 } } in
    if-elim (λ r. Follows p.conn r.conn) (Flow.should_update p.conn.conn_flow) _ p
      (λ due.
        let first = update-Follows p.conn q due in
        let rest =
          add_frame-Stays updated true (write_max_data update.1) (λ c. c) (λ c h. (Keeps-self c, h))
            first.1 in
        (Keeps-trans first.0 rest.0, rest.1))
      (λ idle. (Keeps-self p.conn, q))

Stays-IsReset :
    (sent : Conn → Conn)
    → ((c : Conn)
        → ((sent c).state ≡ c.state)
          × ((sent c).conn_flow ≡ c.conn_flow)
          × ((sent c).is_server ≡ c.is_server)
          × ((sent c).streams ≡ c.streams)
          × ((sent c).next_bidi_id ≡ c.next_bidi_id)
          × ((sent c).next_uni_id ≡ c.next_uni_id)
          × ((sent c).sched ≡ c.sched))
    → IsReset sent
Stays-IsReset sent same c q =
    let e = same c in same-Follows c (sent c) q e.0 e.1 e.2 e.3 e.4 e.5 e.6

abbrev MayStay : Packing → Option Packing → Type 0
MayStay p none = Unit
MayStay p (some p') = Stays p p'

offered-MayStay :
    (p : Packing) (rest : List CidEntry) (out : Option (List ℕ)) → MayStay p (offered p rest out)
unfolding offered
offered-MayStay p rest none = tt
offered-MayStay p rest (some out) = λ q. same-Follows p.conn _ q refl refl refl refl refl refl refl

offer_cid-MayStay :
    (p : Packing) (r : Option (List CidEntry × CidEntry)) → MayStay p (offer_cid p r)
unfolding offer_cid
offer_cid-MayStay p none = tt
offer_cid-MayStay p (some (rest, l)) =
    offered-MayStay p rest (encoded p (write_new_connection_id (cid_frame l)))

module _ (n : ℕ) (p : Packing) where
  add_new_cids-none :
      offer_cid p (pop_last p.conn.migration.pending_new_cids) ≡ none → add_new_cids (suc n) p ≡ p
  unfolding add_new_cids
  add_new_cids-none e = simp (add_new_cids, e)

  add_new_cids-some :
      {p' : Packing}
      → offer_cid p (pop_last p.conn.migration.pending_new_cids) ≡ some p'
      → add_new_cids (suc n) p ≡ add_new_cids n p'
  unfolding add_new_cids
  add_new_cids-some e = simp (add_new_cids, e)

add_new_cids-Stays : (n : ℕ) (p : Packing) → Stays p (add_new_cids n p)
unfolding add_new_cids
add_new_cids-Stays zero p = Stays-same p
add_new_cids-Stays (suc n) p =
    elim (Option-cases (offer_cid p (pop_last p.conn.migration.pending_new_cids))) [
      | inl e ↦ subst (Stays p) (sym (add_new_cids-none n p e)) (Stays-same p)
      | inr (p', e) ↦
          let first : Stays p p' =
            subst (MayStay p) e
              (offer_cid-MayStay p (pop_last p.conn.migration.pending_new_cids)) in
          subst (Stays p) (sym (add_new_cids-some n p e))
            (Stays-trans p p' (add_new_cids n p') first (add_new_cids-Stays n p'))
    ]

add_flag-Stays :
    (p : Packing) (due : Bool) (w : Writer) (sent : Conn → Conn)
    → ((c : Conn)
        → ((sent c).state ≡ c.state)
          × ((sent c).conn_flow ≡ c.conn_flow)
          × ((sent c).is_server ≡ c.is_server)
          × ((sent c).streams ≡ c.streams)
          × ((sent c).next_bidi_id ≡ c.next_bidi_id)
          × ((sent c).next_uni_id ≡ c.next_uni_id)
          × ((sent c).sched ≡ c.sched))
    → Stays p (add_frame p due w sent)
add_flag-Stays p due w sent same = add_frame-Stays p due w sent (Stays-IsReset sent same)

add_migration-Stays : (p : Packing) → Stays p (add_migration p)
unfolding add_migration add_path_response add_path_challenge add_retire_cid
add_migration-Stays p =
    let a = add_path_response p in
    let b = add_path_challenge a in
    let c = add_new_cids (length b.conn.migration.pending_new_cids) b in
    Stays-trans p a (add_retire_cid c)
      (add_flag-Stays p _ _ _ (λ d. (refl, refl, refl, refl, refl, refl, refl)))
      (Stays-trans a b (add_retire_cid c)
        (add_flag-Stays a _ _ _ (λ d. (refl, refl, refl, refl, refl, refl, refl)))
        (Stays-trans b c (add_retire_cid c) (add_new_cids-Stays _ b)
          (add_flag-Stays c _ _ _ (λ d. (refl, refl, refl, refl, refl, refl, refl)))))

pub add_control-Stays : (p : Packing) (now_us : ℕ) → Stays p (add_control p now_us)
unfolding add_control add_close add_ping add_echo add_heartbeat
add_control-Stays p now_us =
    let a = add_ack p now_us in
    let b = add_close a in
    let c = add_ping b in
    let d = add_max_data c in
    let e = add_migration d in
    let f = add_echo e in
    let end = add_heartbeat f in
    Stays-trans p a end (add_ack-Stays p now_us) (
      Stays-trans a b end (add_frame-Stays a _ _ closing_sent closing_sent-IsReset) (
        Stays-trans b c end
          (add_flag-Stays b _ _ _ (λ x. (refl, refl, refl, refl, refl, refl, refl)))
          (Stays-trans c d end (add_max_data-Stays c) (
            Stays-trans d e end (add_migration-Stays d) (
              Stays-trans e f end
                (add_flag-Stays e _ _ _ (λ x. (refl, refl, refl, refl, refl, refl, refl)))
                (add_flag-Stays f _ _ _ (λ x. (refl, refl, refl, refl, refl, refl, refl))))))))

-- A turn of the loop over the scheduler.
abbrev IsTurn : Packing → Turn → Type 0
IsTurn p (Turn.again p') = Follows p.conn p'.conn
IsTurn p (Turn.stop p') = Follows p.conn p'.conn
IsTurn p Turn.fault = ⊥

IsTurn-trans : (a b : Packing) (t : Turn) → Keeps a.conn b.conn → IsTurn b t → IsTurn a t
IsTurn-trans a b (Turn.again p) h k = (Keeps-trans h k.0, k.1)
IsTurn-trans a b (Turn.stop p) h k = (Keeps-trans h k.0, k.1)
IsTurn-trans a b Turn.fault h k = k

requeue-IsTurn : (p : Packing) (id : ℕ) → HasQueue p.conn → IsTurn p (requeue p id)
unfolding requeue
requeue-IsTurn p id q =
    let (sched, e, q') = add-enqueue p.conn.sched id q.0 q.1 in
    if-elim (IsTurn p) (is_idle (p.conn.stream_at id)) _ _ (λ idle. (Keeps-self p.conn, q))
      (λ busy. rw e (Keeps-same p.conn _ refl refl refl refl refl refl, (enqueue id q.0, q')))

packed-Follows :
    (p : Packing) (id : ℕ) (s : Stream) (f : StreamFrame) (out : List ℕ)
    → HasQueue p.conn
    → Follows p.conn (packed p id s f out).conn
unfolding packed Flow.on_send
packed-Follows p id s f out q = (
  record {
    forward = omega arith;
    window = λ h. (h, refl, refl);
    credit = omega arith;
    side = refl;
    known = λ a h. h;
    opened = λ a h. inl h;
    bidi = refl;
    uni = refl;
  },
  q,
)

with_stream-Follows :
    (p : Packing) (id : ℕ) (s : Stream) → HasQueue p.conn → Follows p.conn (with_stream p id s).conn
unfolding with_stream
with_stream-Follows p id s q = same-Follows p.conn _ q refl refl refl refl refl refl refl

place-IsTurn :
    (p : Packing) (id : ℕ) (s : Stream) (f : StreamFrame) (r : Option (List ℕ))
    → HasQueue p.conn
    → IsTurn p (place p id s f r)
unfolding place
place-IsTurn p id s f none q = with_stream-Follows p id _ q
place-IsTurn p id s f (some out) q =
    let first = packed-Follows p id s f out q in
    IsTurn-trans p (packed p id s f out) (requeue (packed p id s f out) id) first.0
      (requeue-IsTurn (packed p id s f out) id first.1)

pack_frame-IsTurn :
    (p : Packing) (id : ℕ) (s : Stream) (r : Option (Stream × StreamFrame))
    → HasQueue p.conn
    → IsTurn p (pack_frame p id s r)
unfolding pack_frame
pack_frame-IsTurn p id s none q = with_stream-Follows p id s q
pack_frame-IsTurn p id s (some (s', f)) q = place-IsTurn p id s' f (encoded p (write_stream f)) q

fill-IsTurn :
    (p : Packing) (id : ℕ) (s : Stream) (max_data : ℕ)
    → HasQueue p.conn
    → IsTurn p (fill p id s max_data)
unfolding fill
fill-IsTurn p id s max_data q = pack_frame-IsTurn p id s (Stream.fill_frame s max_data) q

serve-IsTurn : (p : Packing) (id now_us : ℕ) → HasQueue p.conn → IsTurn p (serve p id now_us)
unfolding serve fill_limited block
serve-IsTurn p id now_us q =
    let s = p.conn.stream_at id in
    if-elim (IsTurn p) (ltb 0 (unsent s) && not (Flow.can_send p.conn.conn_flow 1)) _ _
      (λ stuck. (Keeps-self p.conn, q))
      (λ free.
        if-elim (IsTurn p) s.rate_limit.enabled _ _
          (λ limited.
            if-elim (IsTurn p) (StreamRate.budget (StreamRate.update s.rate_limit now_us) == 0) _ _
              (λ spent. same-Follows p.conn _ q refl refl refl refl refl refl refl)
              (λ left. fill-IsTurn p id _ _ q))
          (λ unlimited. fill-IsTurn p id _ _ q))

serve_next-IsTurn :
    (p : Packing) (sched : Sched) (r : Ptr) (now_us : ℕ) (ys : List ℕ)
    → IsQueue sched ys
    → IsTurn p (serve_next p (some (sched, r)) now_us)
unfolding serve_next with_sched
serve_next-IsTurn p sched none now_us ys q =
    (Keeps-same p.conn _ refl refl refl refl refl refl, (ys, q))
serve_next-IsTurn p sched (some id) now_us ys q =
    let moved = record p { conn = record p.conn { sched = sched } } in
    IsTurn-trans p moved (serve moved id now_us) (Keeps-same p.conn _ refl refl refl refl refl refl)
      (serve-IsTurn moved id now_us (ys, q))

turn-IsTurn : (p : Packing) (now_us : ℕ) → HasQueue p.conn → IsTurn p (turn p now_us)
unfolding turn
turn-IsTurn p now_us q =
    let (sched, e, q') = next-take_turn p.conn.stream_at p.conn.sched q.0 q.1 in
    subst (λ r. IsTurn p (serve_next p r now_us)) (sym e)
      (serve_next-IsTurn p sched (take_turn p.conn.stream_at q.0).1 now_us _ q')

-- What the loop ends with: it has followed no null pointer.
abbrev pub IsEnd : Packing → Packed → Type 0
IsEnd p (Packed.packed_all p') = Follows p.conn p'.conn
IsEnd p Packed.faulted = ⊥
IsEnd p Packed.out_of_fuel = Unit

pub IsEnd-trans : (a b : Packing) (r : Packed) → Keeps a.conn b.conn → IsEnd b r → IsEnd a r
IsEnd-trans a b (Packed.packed_all p) h k = (Keeps-trans h k.0, k.1)
IsEnd-trans a b Packed.faulted h k = k
IsEnd-trans a b Packed.out_of_fuel h k = tt

module _ (now_us : ℕ) where
  abbrev pub rest_of : ℕ → Turn → Packed
  rest_of fuel Turn.fault = Packed.faulted
  rest_of fuel (Turn.stop p') = Packed.packed_all p'
  rest_of fuel (Turn.again p') = pack_streams fuel p' now_us

  rest_of-IsEnd :
      (fuel : ℕ) (p : Packing) (t : Turn)
      → IsTurn p t
      → ((b : Packing) → HasQueue b.conn → IsEnd b (pack_streams fuel b now_us))
      → IsEnd p (rest_of fuel t)
  rest_of-IsEnd fuel p Turn.fault h more = h
  rest_of-IsEnd fuel p (Turn.stop p') h more = h
  rest_of-IsEnd fuel p (Turn.again p') h more =
      IsEnd-trans p p' (pack_streams fuel p' now_us) h.0 (more p' h.1)

  pub pack_streams_step :
      (fuel : ℕ) (p : Packing)
      → pack_streams (suc fuel) p now_us
        ≡ (if is_full p then Packed.packed_all p else rest_of fuel (turn p now_us))
  unfolding pack_streams
  pack_streams_step fuel p =
      elim (turn p now_us)
        as (λ t.
          (if is_full p then Packed.packed_all p else elim t [
            | Turn.fault ↦ Packed.faulted
            | Turn.stop p' ↦ Packed.packed_all p'
            | Turn.again p' ↦ pack_streams fuel p' now_us
          ])
          ≡ (if is_full p then Packed.packed_all p else rest_of fuel t)) [
            | Turn.fault ↦ refl
            | Turn.stop p' ↦ refl
            | Turn.again p' ↦ refl
          ]

  pub pack_streams-IsEnd :
      (fuel : ℕ) (p : Packing) → HasQueue p.conn → IsEnd p (pack_streams fuel p now_us)
  unfolding pack_streams
  pack_streams-IsEnd zero p q =
      if-elim (IsEnd p) (is_full p) _ _ (λ full. (Keeps-self p.conn, q)) (λ room. tt)
  pack_streams-IsEnd (suc fuel) p q = subst (IsEnd p) (sym (pack_streams_step fuel p)) (
      if-elim (IsEnd p) (is_full p) _ _ (λ full. (Keeps-self p.conn, q))
        (λ room.
          rest_of-IsEnd fuel p (turn p now_us) (turn-IsTurn p now_us q) (pack_streams-IsEnd fuel)))
