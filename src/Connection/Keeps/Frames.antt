-- ===== src/Connection/Keeps/Frames.antt =====
-- Whatever frame arrives, the connection stays in order; and the loop over the frames of a packet ends.
use nxp.Prelude.{
  ℕ, zero, suc, ◌≤◌, ◌<◌, ◌^◌, ◌≡◌, inl, inr, refl, sym, ap, subst, arith, List, [], ◌∷◌, ◌++◌,
  Option, none, some, false, not, ◌==◌, ltb, if-elim, Bool-cases, Option-cases, length,
  length-append, All,
}
use nxp.Prelude.Word.{IsByte}
use nxp.Frame.Types.{Frame, StreamFrame, MaxStreamDataFrame, MaxStreamsFrame, NewTokenFrame}
use nxp.Frame.Decode.{decode}
use nxp.Frame.Limits.{decode-IsAdmitted}
use nxp.Flow.{set_peer_max}
use nxp.Stream
use nxp.Stream.{Stream, StreamError, unsent}
use nxp.Migration
use nxp.Migration.{CidEntry}
use nxp.Scheduler.{assign}
use nxp.Scheduler.Queue.{add-enqueue, enqueue}
use nxp.Connection.{Conn, Handshake, TransportParams, set_conn_state}
use nxp.Connection.States.{ConnState}
use nxp.Connection.StreamId.{stream_id_is_local}
use nxp.Connection.Frames.{
  ConnError, Handled, or_fault, create_remote, store_stream, recv_on, on_stream_frame, raise_stream,
  schedule, on_max_stream_data, on_max_streams, on_handshake_done, apply_peer_params,
  complete_handshake, on_handshake_done_frame, rotate_dcid, on_path_response, save_ticket,
  on_new_token, on_new_connection_id, done, process_frame, process_frames,
}
use nxp.Connection.Keeps.{
  Keeps, Keeps-same, Keeps-self, Keeps-trans, Keeps-credit, set_conn_state-Keeps,
  set_conn_state-sched, HasQueue, Follows, IsSafe, IsSafe-trans,
}
use nxp.Connection.Keeps.Acks.{on_ack_frame-IsSafe}

-- A frame is handled, unless it makes a stream write past the end of its buffer.
abbrev pub IsHandled : Conn → Handled → Type 0
IsHandled a (Handled.returned b error) = Follows a b
IsHandled a Handled.fault = Unit
IsHandled a Handled.out_of_fuel = ⊥

pub same-Follows :
    (a b : Conn)
    → HasQueue a
    → b.state ≡ a.state
    → b.conn_flow ≡ a.conn_flow
    → b.is_server ≡ a.is_server
    → b.streams ≡ a.streams
    → b.next_bidi_id ≡ a.next_bidi_id
    → b.next_uni_id ≡ a.next_uni_id
    → b.sched ≡ a.sched
    → Follows a b
same-Follows a b q st fl side str bidi uni sc =
    (Keeps-same a b st fl side str bidi uni, (q.0, rw sc q.1))

store_stream-IsHandled :
    (conn : Conn) (id : ℕ) (r : Option (Stream × Option StreamError))
    → HasQueue conn
    → IsHandled conn (store_stream conn id r)
unfolding store_stream
store_stream-IsHandled conn id none q = tt
store_stream-IsHandled conn id (some (s, error)) q =
    same-Follows conn _ q refl refl refl refl refl refl refl

recv_on-IsHandled :
    (conn : Conn) (f : StreamFrame) → HasQueue conn → IsHandled conn (recv_on conn f)
unfolding recv_on
recv_on-IsHandled conn f q =
    store_stream-IsHandled conn f.stream_id (Stream.on_recv (conn.stream_at f.stream_id) f) q

create_remote-Follows :
    (conn : Conn) (id : ℕ)
    → stream_id_is_local id conn.is_server ≡ false
    → HasQueue conn
    → Follows conn (create_remote conn id)
unfolding create_remote assign
create_remote-Follows conn id remote q = (
  record {
    forward = omega arith;
    window = λ h. (h, refl, refl);
    credit = omega arith;
    side = refl;
    known = λ a h. ground (arith, h);
    opened = λ a h. elim (Bool-cases (a == id)) [
      | inl same ↦ inr (let e : a ≡ id = ground (arith, same) in rw e remote)
      | inr other ↦ inl (rw other at h)
    ];
    bidi = refl;
    uni = refl;
  },
  q,
)

pub IsHandled-trans : {a b : Conn} (r : Handled) → Keeps a b → IsHandled b r → IsHandled a r
IsHandled-trans (Handled.returned c e) h k = (Keeps-trans h k.0, k.1)
IsHandled-trans Handled.fault h k = tt
IsHandled-trans Handled.out_of_fuel h k = k

on_stream_frame-IsHandled :
    (conn : Conn) (f : StreamFrame) → HasQueue conn → IsHandled conn (on_stream_frame conn f)
unfolding on_stream_frame
on_stream_frame-IsHandled conn f q =
    if-elim (IsHandled conn) (conn.streams f.stream_id) _ _ (λ there. recv_on-IsHandled conn f q)
      (λ missing.
        if-elim (IsHandled conn) (stream_id_is_local f.stream_id conn.is_server) _ _
          (λ local. (Keeps-self conn, q))
          (λ remote.
            let new = create_remote-Follows conn f.stream_id remote q in
            IsHandled-trans (recv_on (create_remote conn f.stream_id) f) new.0
              (recv_on-IsHandled (create_remote conn f.stream_id) f new.1)))

-- A stream in the map is put into the scheduler.
pub schedule-IsSafe : (conn : Conn) (id : ℕ) → HasQueue conn → IsSafe conn (schedule conn id)
unfolding schedule
schedule-IsSafe conn id q =
    let (sched, e, q') = add-enqueue conn.sched id q.0 q.1 in
    (
      record conn { sched = sched },
      simp (schedule, e),
      (Keeps-same conn _ refl refl refl refl refl refl, (enqueue id q.0, q')),
    )

on_max_stream_data-IsSafe :
    (conn : Conn) (f : MaxStreamDataFrame) → HasQueue conn → IsSafe conn (on_max_stream_data conn f)
unfolding on_max_stream_data raise_stream
on_max_stream_data-IsSafe conn f q =
    let same : Keeps conn (raise_stream conn f) = Keeps-same conn _ refl refl refl refl refl refl in
    if-elim (IsSafe conn) (not (conn.streams f.stream_id)) _ _
      (λ missing. (conn, refl, (Keeps-self conn, q)))
      (λ there.
        if-elim (IsSafe conn) (ltb 0 (unsent (conn.stream_at f.stream_id))) _ _
          (λ more. IsSafe-trans same (schedule-IsSafe (raise_stream conn f) f.stream_id q))
          (λ nothing. (raise_stream conn f, refl, (same, q))))

or_fault-IsHandled : {a : Conn} {r : Option Conn} → IsSafe a r → IsHandled a (or_fault r)
unfolding or_fault
or_fault-IsHandled {a} (b, e, k) = rw e k

on_max_streams-Follows :
    (conn : Conn) (f : MaxStreamsFrame) → HasQueue conn → Follows conn (on_max_streams conn f)
unfolding on_max_streams
on_max_streams-Follows conn f q =
    if-elim (Follows conn) f.is_bidi _ _
      (λ b. same-Follows conn _ q refl refl refl refl refl refl refl)
      (λ u. same-Follows conn _ q refl refl refl refl refl refl refl)

apply_peer_params-Keeps :
    (conn : Conn) (tp : TransportParams) → Keeps conn (apply_peer_params conn tp)
unfolding apply_peer_params set_peer_max
apply_peer_params-Keeps conn tp = record {
  forward = omega arith;
  window = λ h. ground (arith, h);
  credit = ground arith;
  side = refl;
  known = λ id h. h;
  opened = λ id h. inl h;
  bidi = refl;
  uni = refl;
}

complete_handshake-Follows :
    (conn : Conn) (hs : Handshake) → HasQueue conn → Follows conn (complete_handshake conn hs)
unfolding complete_handshake apply_peer_params
complete_handshake-Follows conn hs q =
    let begun = record conn { handshake = some hs } in
    let up = set_conn_state begun ConnState.established in
    let first : Keeps conn up =
      Keeps-trans (Keeps-same conn begun refl refl refl refl refl refl)
        (set_conn_state-Keeps begun ConnState.established) in
    let queue : HasQueue up = (q.0, rw (set_conn_state-sched begun ConnState.established) q.1) in
    if-elim (Follows conn) hs.has_peer_params _ _
      (λ given. (Keeps-trans first (apply_peer_params-Keeps up hs.peer_params), queue))
      (λ absent. (first, queue))

handshake_case :
    (conn : Conn) (r : Option Handshake)
    → HasQueue conn
    → Follows conn (elim r [ none ↦ conn | some hs ↦ complete_handshake conn hs ])
handshake_case conn none q = (Keeps-self conn, q)
handshake_case conn (some hs) q = complete_handshake-Follows conn hs q

on_handshake_done_frame-Follows :
    (conn : Conn) → HasQueue conn → Follows conn (on_handshake_done_frame conn)
unfolding on_handshake_done_frame
on_handshake_done_frame-Follows conn q = elim (Option-cases conn.handshake) [
  | inl absent ↦
      subst (Follows conn) (sym (simp (on_handshake_done_frame, absent))) (Keeps-self conn, q)
  | inr (hs, there) ↦
      subst (Follows conn) (sym (simp (on_handshake_done_frame, there)))
        (handshake_case conn (on_handshake_done hs) q)
]

rotate_dcid-Follows :
    (conn : Conn) (e : Option CidEntry) → HasQueue conn → Follows conn (rotate_dcid conn e)
unfolding rotate_dcid
rotate_dcid-Follows conn none q = (Keeps-self conn, q)
rotate_dcid-Follows conn (some e) q = same-Follows conn _ q refl refl refl refl refl refl refl

on_path_response-Follows :
    (conn : Conn) (bytes : List ℕ) → HasQueue conn → Follows conn (on_path_response conn bytes)
unfolding on_path_response
on_path_response-Follows conn bytes q =
    let migration = (Migration.on_path_response conn.migration bytes).0 in
    let moved = record conn { migration = migration; peer_addr = migration.current_path.addr } in
    let first : Follows conn moved = same-Follows conn moved q refl refl refl refl refl refl refl in
    let turned = rotate_dcid-Follows moved (Migration.get_unused_cid migration) first.1 in
    if-elim (Follows conn) (Migration.on_path_response conn.migration bytes).1 _ _
      (λ valid. (Keeps-trans first.0 turned.0, turned.1))
      (λ not_valid. same-Follows conn _ q refl refl refl refl refl refl refl)

new_token_case :
    (conn : Conn) (f : NewTokenFrame) (hs : Option Handshake)
    → HasQueue conn
    → Follows conn
        (elim hs [ none ↦ conn | some h ↦ record conn { handshake = some (save_ticket h f) } ])
new_token_case conn f none q = (Keeps-self conn, q)
new_token_case conn f (some hs) q = same-Follows conn _ q refl refl refl refl refl refl refl

on_new_token-Follows :
    (conn : Conn) (f : NewTokenFrame) → HasQueue conn → Follows conn (on_new_token conn f)
unfolding on_new_token
on_new_token-Follows conn f q =
    if-elim (Follows conn) conn.is_server _ _ (λ server. (Keeps-self conn, q))
      (λ client. new_token_case conn f conn.handshake q)

close-Follows :
    (conn : Conn) (to : ConnState) → HasQueue conn → Follows conn (set_conn_state conn to)
close-Follows conn to q =
    (set_conn_state-Keeps conn to, (q.0, rw (set_conn_state-sched conn to) q.1))

-- Every case of the switch.
pub process_frame-IsHandled :
    (conn : Conn) (f : Frame) (now_us : ℕ)
    → HasQueue conn
    → IsHandled conn (process_frame conn f now_us)
unfolding process_frame done on_new_connection_id
process_frame-IsHandled conn (Frame.padding n) now_us q = (Keeps-self conn, q)
process_frame-IsHandled conn Frame.ping now_us q = (Keeps-self conn, q)
process_frame-IsHandled conn (Frame.ack f) now_us q =
    or_fault-IsHandled (on_ack_frame-IsSafe conn f now_us q)
process_frame-IsHandled conn (Frame.stream f) now_us q = on_stream_frame-IsHandled conn f q
process_frame-IsHandled conn (Frame.max_data n) now_us q = (Keeps-credit conn n, q)
process_frame-IsHandled conn (Frame.max_stream_data f) now_us q =
    or_fault-IsHandled (on_max_stream_data-IsSafe conn f q)
process_frame-IsHandled conn (Frame.max_streams f) now_us q = on_max_streams-Follows conn f q
process_frame-IsHandled conn (Frame.connection_close f) now_us q =
    close-Follows conn ConnState.draining q
process_frame-IsHandled conn Frame.handshake_done now_us q = on_handshake_done_frame-Follows conn q
process_frame-IsHandled conn (Frame.path_challenge b) now_us q =
    same-Follows conn _ q refl refl refl refl refl refl refl
process_frame-IsHandled conn (Frame.path_response b) now_us q = on_path_response-Follows conn b q
process_frame-IsHandled conn (Frame.new_connection_id f) now_us q =
    same-Follows conn _ q refl refl refl refl refl refl refl
process_frame-IsHandled conn (Frame.retire_connection_id n) now_us q =
    same-Follows conn _ q refl refl refl refl refl refl refl
process_frame-IsHandled conn (Frame.new_token f) now_us q = on_new_token-Follows conn f q
process_frame-IsHandled conn (Frame.heartbeat t) now_us q =
    same-Follows conn _ q refl refl refl refl refl refl refl
process_frame-IsHandled conn (Frame.reset_stream f) now_us q = (Keeps-self conn, q)
process_frame-IsHandled conn (Frame.stop_sending f) now_us q = (Keeps-self conn, q)
process_frame-IsHandled conn (Frame.crypto f) now_us q = (Keeps-self conn, q)
process_frame-IsHandled conn (Frame.data_blocked n) now_us q = (Keeps-self conn, q)
process_frame-IsHandled conn (Frame.stream_data_blocked f) now_us q = (Keeps-self conn, q)
process_frame-IsHandled conn (Frame.streams_blocked f) now_us q = (Keeps-self conn, q)
process_frame-IsHandled conn (Frame.stream_priority f) now_us q = (Keeps-self conn, q)
process_frame-IsHandled conn (Frame.datagram f) now_us q = (Keeps-self conn, q)

All-drop : (P : ℕ → Type 0) (us rs : List ℕ) → All P (us ++ rs) → All P rs
All-drop P [] rs h = h
All-drop P (u ∷ us) rs h = All-drop P us rs h.1

-- The bytes that the decoder takes are gone from the rest.
shorter :
    (l : List ℕ) (f : Frame) (r : List ℕ)
    → All IsByte l
    → length l < 2 ^ 63
    → decode l ≡ some (f, r)
    → (length r < length l) × All IsByte r
shorter l f r bytes fits e =
    let (u, split, taken, admitted) = decode-IsAdmitted l f r bytes fits e in
    (
      omega (arith, ap length split, length-append u r, taken),
      All-drop IsByte u r (subst (All IsByte) split bytes),
    )

module _ (now_us : ℕ) where
  -- The rest of the loop behind one frame.
  go_on : ℕ → List ℕ → Handled → Handled
  go_on fuel rest r = elim r [
    | Handled.returned conn none ↦ process_frames fuel conn rest now_us
    | Handled.returned conn (some error) ↦ Handled.returned conn (some error)
    | Handled.fault ↦ Handled.fault
    | Handled.out_of_fuel ↦ Handled.out_of_fuel
  ]

  go_on-IsHandled :
      (a : Conn) (fuel : ℕ) (rest : List ℕ) (r : Handled)
      → IsHandled a r
      → ((b : Conn) → HasQueue b → IsHandled b (process_frames fuel b rest now_us))
      → IsHandled a (go_on fuel rest r)
  unfolding go_on
  go_on-IsHandled a fuel rest (Handled.returned b none) h more =
      IsHandled-trans (process_frames fuel b rest now_us) h.0 (more b h.1)
  go_on-IsHandled a fuel rest (Handled.returned b (some error)) h more = h
  go_on-IsHandled a fuel rest Handled.fault h more = tt
  go_on-IsHandled a fuel rest Handled.out_of_fuel h more = h

  process_frames-decoded :
      (fuel : ℕ) (conn : Conn) (b : ℕ) (bytes : List ℕ) (f : Frame) (rest : List ℕ)
      → decode (b ∷ bytes) ≡ some (f, rest)
      → process_frames (suc fuel) conn (b ∷ bytes) now_us
        ≡ go_on fuel rest (process_frame conn f now_us)
  unfolding process_frames go_on
  process_frames-decoded fuel conn b bytes f rest e = simp (process_frames, e)

  process_frames-refused :
      (fuel : ℕ) (conn : Conn) (b : ℕ) (bytes : List ℕ)
      → decode (b ∷ bytes) ≡ none
      → process_frames (suc fuel) conn (b ∷ bytes) now_us
        ≡ Handled.returned conn (some ConnError.invalid_frame)
  unfolding process_frames
  process_frames-refused fuel conn b bytes e = simp (process_frames, e)

  -- For fewer than 2 ^ 63 bytes and a scheduler that is a queue, as many turns as there are bytes are enough:
  -- the loop ends. Unless it ends at a fault, with an error or without, the scheduler is still a queue, the
  -- state has not gone back, and the window, the side and the streams are kept as `Keeps` says.
  pub process_frames-IsHandled :
      (fuel : ℕ) (conn : Conn) (bytes : List ℕ)
      → All IsByte bytes
      → length bytes < 2 ^ 63
      → length bytes ≤ fuel
      → HasQueue conn
      → IsHandled conn (process_frames fuel conn bytes now_us)
  unfolding process_frames done
  process_frames-IsHandled fuel conn [] all fits enough q = (Keeps-self conn, q)
  process_frames-IsHandled zero conn (b ∷ bytes) all fits enough q = absurd (omega arith)
  process_frames-IsHandled (suc fuel) conn (b ∷ bytes) all fits enough q =
      elim (Option-cases (decode (b ∷ bytes))) [
        | inl e ↦
            subst (IsHandled conn) (sym (process_frames-refused fuel conn b bytes e))
              (Keeps-self conn, q)
        | inr ((f, rest), e) ↦
            let less = shorter (b ∷ bytes) f rest all fits e in
            subst (IsHandled conn) (sym (process_frames-decoded fuel conn b bytes f rest e)) (
              go_on-IsHandled conn fuel rest (process_frame conn f now_us)
                (process_frame-IsHandled conn f now_us q)
                (λ c qc.
                  process_frames-IsHandled fuel c rest less.1 (omega arith) (omega arith) qc))
      ]
