-- ===== src/Connection/Run.antt =====
-- Any sequence of the calls of a connection.
use nxp.Prelude.{
  ℕ, ◌<◌, ◌≤◌, ◌^◌, ◌≡◌, ◌⊎◌, inl, inr, refl, sym, ap, ◌∙◌, subst, arith, List, [], Option, some,
  Bool, true, false, ◌==◌, if◌then◌else◌, if-elim, Bool-cases, ==→eq,
}
use nxp.Frame.Types.{ConnId}
use nxp.Stream.{StreamType, ReadResult}
use nxp.Scheduler.{assign}
use nxp.Scheduler.Queue.{init-IsQueue}
use nxp.Connection.{Conn, ConnConfig, TransportParams, create, set_established}
use nxp.Connection.States.{number}
use nxp.Connection.StreamId.{
  make_stream_id, stream_id_is_local, bit, make_stream_id-is_local, make_stream_id-injective,
}
use nxp.Connection.Frames.{Handled, ConnError}
use nxp.Connection.Receive.{recv_short}
use nxp.Connection.Send.Streams.{Sent, send}
use nxp.Connection.Timers.{on_timeout}
use nxp.Connection.Api.{
  at_limit, next_id, put_stream, count_stream, open_stream, stream_send, stream_recv,
  initiate_close, Started, start_handshake, set_heartbeat, set_auto_reconnect, set_stream_rate,
  set_on_writable,
}
use nxp.Connection.Keeps.{HasQueue, Follows, IsSafe}
use nxp.Connection.Keeps.Acks.{on_timeout-IsSafe}
use nxp.Connection.Keeps.Frames.{IsHandled}
use nxp.Connection.Keeps.Calls.{
  MayFollow, stream_send-MayFollow, stream_recv-MayFollow, initiate_close-Follows,
  set_established-Follows, start_handshake-Follows, set_heartbeat-Follows,
  set_auto_reconnect-Follows, set_stream_rate-Follows, set_on_writable-Follows,
}
use nxp.Flow
use nxp.Flow.{FlowCtrl}
use nxp.Connection.Keeps.Whole.{IsBytewise, AreBytes, IsSent, recv_short-IsHandled, send-IsSent}

-- A call that returns, with the connection after it: every function of connection.c that changes a connection
-- is here, except for the packets of a handshake, received or sent. A packet that arrives consists of bytes,
-- and so does what src/crypto gives for it; a side opens fewer than 2^60 streams of a kind.
pub data Step (a : Conn) : Conn → Type 0 where
  received :
      {b : Conn} {error : Option ConnError} (bytes : List ℕ) (now_us : ℕ)
      → AreBytes bytes
      → IsBytewise a.crypto
      → recv_short a bytes now_us ≡ Handled.returned b error
      → Step a b
  sent :
      {b : Conn} {packet : List ℕ} (fuel max_len now_us : ℕ) (grows : Bool)
      → send fuel a max_len now_us grows ≡ Sent.sent b packet
      → Step a b
  not_sent :
      {b : Conn} (fuel max_len now_us : ℕ) (grows : Bool)
      → (send fuel a max_len now_us grows ≡ Sent.nothing b)
        ⊎ (send fuel a max_len now_us grows ≡ Sent.failed b)
      → Step a b
  timed : {b : Conn} (now_us : ℕ) → on_timeout a now_us ≡ some b → Step a b
  opened :
      (type : StreamType) (unidirectional : Bool)
      → a.next_bidi_id < 2 ^ 60
      → a.next_uni_id < 2 ^ 60
      → Step a (open_stream a type unidirectional).0
  written :
      {b : Conn} {n : Option ℕ} (id : ℕ) (bytes : List ℕ) (fin : Bool)
      → stream_send a id bytes fin ≡ some (b, n)
      → Step a b
  read :
      {b : Conn} {r : Option ReadResult} (id buf_len : ℕ)
      → stream_recv a id buf_len ≡ some (b, r)
      → Step a b
  closed : (error_code : ℕ) → Step a (initiate_close a error_code).0
  established : (dcid : ConnId) → Step a (set_established a dcid)
  handshake_started :
      (start : Bool → TransportParams → ConnId → Started) (peer_cid : ConnId)
      → Step a (start_handshake start a peer_cid).0
  heartbeat_set : (interval_us : ℕ) → Step a (set_heartbeat a interval_us)
  auto_reconnect_set :
      (enable : Bool) (max_attempts : ℕ) → Step a (set_auto_reconnect a enable max_attempts)
  stream_rate_set : (id rate_bps : ℕ) → Step a (set_stream_rate a id rate_bps).0
  on_writable_set : (id : ℕ) (callback : Bool) → Step a (set_on_writable a id callback).0

-- What a side made itself is numbered below its counters.
abbrev IsCounted : Conn → ℕ → Type 0
IsCounted c id =
    (seq : ℕ) × (type : StreamType) × (uni : Bool) × (id ≡ make_stream_id seq type uni c.is_server)
    × (seq < (if uni then c.next_uni_id else c.next_bidi_id))

pub record IsSound (c : Conn) : Type 0 where
  pub queue : HasQueue c
  pub window : c.conn_flow.send_max_data ≡ false
  pub counted :
      (id : ℕ) → c.streams id ≡ true → stream_id_is_local id c.is_server ≡ true → IsCounted c id

Keeps-IsSound : {a b : Conn} → IsSound a → Follows a b → IsSound b
Keeps-IsSound {a} {b} h (k, q) = record {
  queue = q;
  window = (k.window h.window).0;
  counted = λ id there local. elim (k.opened id there) [
    | inl before ↦
        let (seq, type, uni, e, below) =
          h.counted id before (ap (stream_id_is_local id) (sym k.side) ∙ local) in
        (
          seq,
          type,
          uni,
          e ∙ ap (make_stream_id seq type uni) (sym k.side),
          rw (k.uni, k.bidi) below,
        )
    | inr remote ↦ absurd (ground (arith, remote, ap (stream_id_is_local id) (sym k.side), local))
  ];
}

assign-other : (f : ℕ → Bool) (s : ℕ) (v : Bool) (a : ℕ) → (a == s) ≡ false → assign f s v a ≡ f a
unfolding assign
assign-other f s v a h = simp (h, if◌then◌else◌)

abbrev counter : Conn → Bool → ℕ
counter c uni = if uni then c.next_uni_id else c.next_bidi_id

-- The connection behind an `open_stream` that is within the limit.
abbrev behind_open : Conn → StreamType → Bool → Conn
behind_open c type uni = count_stream (put_stream c (next_id c type uni) type) uni

module _ (c : Conn) (type : StreamType) (uni : Bool) (few : c.next_bidi_id < 2 ^ 60)
    (few' : c.next_uni_id < 2 ^ 60) where
  counter_below : (u : Bool) → counter c u < 2 ^ 60
  counter_below true = few'
  counter_below false = few

  -- The id that is next has not been used.
  pub next_id-fresh : IsSound c → c.streams (next_id c type uni) ≡ false
  unfolding next_id bit
  next_id-fresh h = elim (Bool-cases (c.streams (next_id c type uni))) [
    | inr free ↦ free
    | inl used ↦
        let local =
          (make_stream_id-is_local (counter c uni) type uni c.is_server (counter_below uni)).0 in
        let (seq, type', uni', e, below) = h.counted (next_id c type uni) used local in
        let small : seq < 2 ^ 60 = omega (arith, below, counter_below uni') in
        let same =
          make_stream_id-injective (counter c uni) seq type type' uni uni' c.is_server c.is_server
            (counter_below uni) small e in
        absurd (clash uni uni' seq same.0 same.2 below)
  ]
    where
      clash : (u u' : Bool) (seq : ℕ) → counter c u ≡ seq → bit u ≡ bit u' → seq < counter c u' → ⊥
      clash true true seq e eb below = omega arith
      clash false false seq e eb below = omega arith
      clash true false seq e eb below = absurd (omega (arith, eb))
      clash false true seq e eb below = absurd (omega (arith, eb))

  counter_grows : (u : Bool) → counter c u ≤ counter (behind_open c type uni) u
  unfolding count_stream put_stream
  counter_grows true = ground (arith, few')
  counter_grows false = ground (arith, few)

  counter_passes : counter c uni < counter (behind_open c type uni) uni
  unfolding count_stream put_stream
  counter_passes = ground (arith, few, few')

  open_others :
      ((behind_open c type uni).is_server ≡ c.is_server)
      × ((behind_open c type uni).sched ≡ c.sched)
      × ((behind_open c type uni).conn_flow ≡ c.conn_flow)
      × ((behind_open c type uni).state ≡ c.state)
      × ((behind_open c type uni).streams ≡ assign c.streams (next_id c type uni) true)
  unfolding count_stream put_stream
  open_others = ground arith

  behind_open-IsSound : IsSound c → IsSound (behind_open c type uni)
  unfolding next_id
  behind_open-IsSound h =
      let same = open_others in
      record {
        queue = (h.queue.0, rw same.1 h.queue.1);
        window = rw same.2 h.window;
        counted = λ id there local. elim (Bool-cases (id == next_id c type uni)) [
          | inl new ↦ (
            counter c uni,
            type,
            uni,
            ==→eq id (next_id c type uni) new
                ∙ ap (make_stream_id (counter c uni) type uni) (sym same.0),
            counter_passes,
          )
          | inr other ↦
              let before : c.streams id ≡ true =
                sym (assign-other c.streams (next_id c type uni) true id other)
                ∙ sym (ap (λ (g : ℕ → Bool). g id) same.4)
                ∙ there in
              let (seq, type', uni', e, below) =
                h.counted id before (ap (stream_id_is_local id) (sym same.0) ∙ local) in
              (
                seq,
                type',
                uni',
                e ∙ ap (make_stream_id seq type' uni') (sym same.0),
                omega (arith, below, counter_grows uni'),
              )
        ];
      }

  -- In a sound connection whose counters are below 2 ^ 60, opening a stream below the limit succeeds; the id
  -- was not in use and is local, and the connection stays sound.
  pub open_stream-fresh :
      IsSound c
      → at_limit c uni ≡ false
      → (open_stream c type uni ≡ (behind_open c type uni, some (next_id c type uni)))
        × (c.streams (next_id c type uni) ≡ false)
        × (stream_id_is_local (next_id c type uni) c.is_server ≡ true)
        × IsSound (behind_open c type uni)
  unfolding open_stream next_id
  open_stream-fresh h free = (
    simp (open_stream, free, if◌then◌else◌),
    next_id-fresh h,
    (make_stream_id-is_local (counter c uni) type uni c.is_server (counter_below uni)).0,
    behind_open-IsSound h,
  )

-- What a step leaves: a sound connection, its state no earlier, and its own window where it was.
abbrev IsKept : Conn → Conn → Type 0
IsKept a b =
    IsSound b
    × (number a.state ≤ number b.state)
    × (b.conn_flow.local_max_data ≡ a.conn_flow.local_max_data)

kept : (a b : Conn) → IsSound a → Follows a b → IsKept a b
kept a b h f = (Keeps-IsSound h f, f.0.forward, (f.0.window h.window).1)

returned-Follows : (a b : Conn) (x : Option Conn) → IsSafe a x → x ≡ some b → Follows a b
returned-Follows a b x (c, e, f) h = let same : c ≡ b = cc (e, h) in subst (Follows a) same f

open_case :
    (c : Conn) (type : StreamType) (uni : Bool)
    → c.next_bidi_id < 2 ^ 60
    → c.next_uni_id < 2 ^ 60
    → IsSound c
    → IsKept c (open_stream c type uni).0
unfolding open_stream next_id
open_case c type uni few few' h =
    if-elim (λ (r : Conn × Option ℕ). IsKept c r.0) (at_limit c uni) _ _
      (λ full. (h, omega arith, refl))
      (λ free. (
        behind_open-IsSound c type uni few few' h,
        rw ((open_others c type uni few few').3) (omega arith),
        ap (λ (f : FlowCtrl). f.local_max_data) ((open_others c type uni few few').2),
      ))

-- What a side has opened itself counts in its counters; all else follows.
Step-IsKept : (a b : Conn) → Step a b → IsSound a → IsKept a b
Step-IsKept a b (received bytes now_us ok wise e) h =
    let f : Follows a b =
      subst (IsHandled a) e (recv_short-IsHandled a bytes now_us wise ok h.queue) in
    kept a _ h f
Step-IsKept a b (sent fuel max_len now_us grows e) h =
    let f : Follows a b = subst (IsSent a) e (send-IsSent fuel a max_len now_us grows h.queue) in
    kept a _ h f
Step-IsKept a b (not_sent fuel max_len now_us grows (inl e)) h =
    let f : Follows a b = subst (IsSent a) e (send-IsSent fuel a max_len now_us grows h.queue) in
    kept a _ h f
Step-IsKept a b (not_sent fuel max_len now_us grows (inr e)) h =
    let f : Follows a b = subst (IsSent a) e (send-IsSent fuel a max_len now_us grows h.queue) in
    kept a _ h f
Step-IsKept a b (timed now_us e) h =
    let f = returned-Follows a b (on_timeout a now_us) (on_timeout-IsSafe a now_us h.queue) e in
    kept a _ h f
Step-IsKept a _ (opened type uni few few') h = open_case a type uni few few' h
Step-IsKept a b (written id bytes fin e) h =
    let f : Follows a b = subst (MayFollow a) e (stream_send-MayFollow a id bytes fin h.queue) in
    kept a _ h f
Step-IsKept a b (read id buf_len e) h =
    let f : Follows a b = subst (MayFollow a) e (stream_recv-MayFollow a id buf_len h.queue) in
    kept a _ h f
Step-IsKept a _ (closed code) h = let f = initiate_close-Follows a code h.queue in kept a _ h f
Step-IsKept a _ (established dcid) h =
    let f = set_established-Follows a dcid h.queue in kept a _ h f
Step-IsKept a _ (handshake_started start peer_cid) h =
    let f = start_handshake-Follows start a peer_cid h.queue in kept a _ h f
Step-IsKept a _ (heartbeat_set interval_us) h =
    let f = set_heartbeat-Follows a interval_us h.queue in kept a _ h f
Step-IsKept a _ (auto_reconnect_set enable max_attempts) h =
    let f = set_auto_reconnect-Follows a enable max_attempts h.queue in kept a _ h f
Step-IsKept a _ (stream_rate_set id rate_bps) h =
    let f = set_stream_rate-Follows a id rate_bps h.queue in kept a _ h f
Step-IsKept a _ (on_writable_set id callback) h =
    let f = set_on_writable-Follows a id callback h.queue in kept a _ h f

pub data Run (a : Conn) : Conn → Type 0 where
  begin : Run a a
  more : {b c : Conn} → Run a b → Step b c → Run a c

Run-IsKept : (a c : Conn) → Run a c → IsSound a → IsKept a c
Run-IsKept a _ begin h = (h, omega arith, refl)
Run-IsKept a c (more {b} run step) h =
    let before = Run-IsKept a b run h in
    let last = Step-IsKept b c step before.0 in
    (last.0, omega (arith, before.1, last.1), last.2 ∙ before.2)

create-IsSound : (config : ConnConfig) (is_server : Bool) → IsSound (create config is_server)
unfolding create Flow.init
create-IsSound config is_server = record {
  queue = ([], init-IsQueue);
  window = refl;
  counted = λ id there local. absurd (ground (arith, there));
}

pub Run-IsSound :
    (config : ConnConfig) (is_server : Bool) (c : Conn)
    → Run (create config is_server) c
    → IsSound c
Run-IsSound config is_server c run =
    (Run-IsKept (create config is_server) c run (create-IsSound config is_server)).0
