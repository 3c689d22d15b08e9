-- ===== src/Connection/Keeps/Calls.antt =====
-- The calls of the application keep the connection in order.
use nxp.Prelude.{ℕ, refl, sym, subst, List, Option, none, some, Bool, not, ◌||◌, ltb, if-elim}
use nxp.Frame.Types.{ConnId}
use nxp.Stream
use nxp.Stream.{Stream, StreamType, ReadResult}
use nxp.Scheduler.{assign}
use nxp.Connection.{Conn, TransportParams, set_conn_state, set_established}
use nxp.Connection.States.{ConnState, is_state}
use nxp.Connection.Frames.{ConnError}
use nxp.Connection.Api.{
  with_count, after_write, store_written, stream_send, store_read, stream_recv, initiate_close,
  Started, enter_handshake, after_start, start_handshake, local_params, set_heartbeat,
  set_auto_reconnect, set_stream_rate, set_on_writable,
}
use nxp.Connection.Keeps.{
  Keeps, Keeps-same, Keeps-self, Keeps-trans, set_conn_state-Keeps, set_conn_state-sched, HasQueue,
  Follows,
}
use nxp.Connection.Keeps.Frames.{same-Follows, schedule-IsSafe}

abbrev pub MayFollow {ℓ} : {A : Type ℓ} → Conn → Option (Conn × A) → Type 0
MayFollow c none = Unit
MayFollow c (some (b, n)) = Follows c b

-- The calls besides `open_stream`.
MayFollow-trans {ℓ} :
    {A : Type ℓ} (a b : Conn) (r : Option (Conn × A)) → Keeps a b → MayFollow b r → MayFollow a r
MayFollow-trans a b none h k = tt
MayFollow-trans a b (some (c, n)) h k = (Keeps-trans h k.0, k.1)

after_write-MayFollow :
    (c : Conn) (id : ℕ) (w : Option ℕ) → HasQueue c → MayFollow c (after_write c id w)
unfolding after_write with_count
after_write-MayFollow c id none q = (Keeps-self c, q)
after_write-MayFollow c id (some n) q =
    let (b, e, f) = schedule-IsSafe c id q in
    if-elim (MayFollow c) (ltb 0 n) _ _
      (λ more. subst (λ r. MayFollow c (with_count n r)) (sym e) f) (λ nothing. (Keeps-self c, q))

store_written-MayFollow :
    (c : Conn) (id : ℕ) (w : Option (Stream × Option ℕ))
    → HasQueue c
    → MayFollow c (store_written c id w)
unfolding store_written
store_written-MayFollow c id none q = tt
store_written-MayFollow c id (some (s, w)) q =
    let stored = record c { stream_at = assign c.stream_at id s } in
    MayFollow-trans c stored (after_write stored id w)
      (Keeps-same c stored refl refl refl refl refl refl) (after_write-MayFollow stored id w q)

pub stream_send-MayFollow :
    (c : Conn) (id : ℕ) (bytes : List ℕ) (fin : Bool)
    → HasQueue c
    → MayFollow c (stream_send c id bytes fin)
unfolding stream_send
stream_send-MayFollow c id bytes fin q =
    if-elim (MayFollow c) (not (is_state c.state ConnState.established) || not (c.streams id)) _ _
      (λ absent. (Keeps-self c, q))
      (λ there. store_written-MayFollow c id (Stream.write (c.stream_at id) bytes fin) q)

store_read-MayFollow :
    (c : Conn) (id : ℕ) (r : Option ReadResult) → HasQueue c → MayFollow c (store_read c id r)
unfolding store_read
store_read-MayFollow c id none q = tt
store_read-MayFollow c id (some r) q = same-Follows c _ q refl refl refl refl refl refl refl

pub stream_recv-MayFollow :
    (c : Conn) (id buf_len : ℕ) → HasQueue c → MayFollow c (stream_recv c id buf_len)
unfolding stream_recv
stream_recv-MayFollow c id buf_len q =
    if-elim (MayFollow c) (c.streams id) _ _
      (λ there. store_read-MayFollow c id (Stream.read (c.stream_at id) buf_len) q)
      (λ absent. (Keeps-self c, q))

pub initiate_close-Follows :
    (c : Conn) (code : ℕ) → HasQueue c → Follows c (initiate_close c code).0
unfolding initiate_close
initiate_close-Follows c code q =
    if-elim (λ (r : Conn × Option ConnError). Follows c r.0)
      (is_state c.state ConnState.closed || is_state c.state ConnState.draining) _ _
      (λ over. (Keeps-self c, q)) (λ live. same-Follows c _ q refl refl refl refl refl refl refl)

pub set_established-Follows :
    (c : Conn) (dcid : ConnId) → HasQueue c → Follows c (set_established c dcid)
unfolding set_established
set_established-Follows c dcid q =
    let named = record c { dcid = dcid } in
    (
      Keeps-trans (Keeps-same c named refl refl refl refl refl refl)
          (set_conn_state-Keeps named ConnState.established),
      (q.0, rw (set_conn_state-sched named ConnState.established) q.1),
    )

moved-Follows : (a b : Conn) (to : ConnState) → Follows a b → Follows a (set_conn_state b to)
moved-Follows a b to (k, q) =
    (Keeps-trans k (set_conn_state-Keeps b to), (q.0, rw (set_conn_state-sched b to) q.1))

enter_handshake-Follows :
    (c : Conn) (peer_cid : ConnId) → HasQueue c → Follows c (enter_handshake c peer_cid)
unfolding enter_handshake
enter_handshake-Follows c peer_cid q = moved-Follows c _ ConnState.handshake_initial (
    if-elim (Follows c) c.is_server _ _ (λ server. (Keeps-self c, q))
      (λ client. same-Follows c _ q refl refl refl refl refl refl refl))

started-Follows :
    (c : Conn) (peer_cid : ConnId) (r : Started)
    → HasQueue c
    → Follows c (after_start c peer_cid r).0
unfolding after_start
started-Follows c peer_cid Started.no_handshake q = (Keeps-self c, q)
started-Follows c peer_cid (Started.refused error) q =
    moved-Follows c _ ConnState.idle (enter_handshake-Follows c peer_cid q)
started-Follows c peer_cid (Started.started hs) q =
    let into = enter_handshake-Follows c peer_cid q in
    let rest =
      same-Follows (enter_handshake c peer_cid) _ into.1 refl refl refl refl refl refl refl in
    (Keeps-trans into.0 rest.0, rest.1)

pub start_handshake-Follows :
    (start : Bool → TransportParams → ConnId → Started) (c : Conn) (peer_cid : ConnId)
    → HasQueue c
    → Follows c (start_handshake start c peer_cid).0
unfolding start_handshake
start_handshake-Follows start c peer_cid q =
    if-elim (λ (r : Conn × Option ConnError). Follows c r.0) (not (is_state c.state ConnState.idle))
      _ _ (λ busy. (Keeps-self c, q))
      (λ idle. started-Follows c peer_cid (start c.is_server (local_params c) peer_cid) q)

pub set_heartbeat-Follows :
    (c : Conn) (interval_us : ℕ) → HasQueue c → Follows c (set_heartbeat c interval_us)
unfolding set_heartbeat
set_heartbeat-Follows c interval_us q = same-Follows c _ q refl refl refl refl refl refl refl

pub set_auto_reconnect-Follows :
    (c : Conn) (enable : Bool) (max_attempts : ℕ)
    → HasQueue c
    → Follows c (set_auto_reconnect c enable max_attempts)
unfolding set_auto_reconnect
set_auto_reconnect-Follows c enable max_attempts q =
    same-Follows c _ q refl refl refl refl refl refl refl

pub set_stream_rate-Follows :
    (c : Conn) (id rate_bps : ℕ) → HasQueue c → Follows c (set_stream_rate c id rate_bps).0
unfolding set_stream_rate
set_stream_rate-Follows c id rate_bps q =
    if-elim (λ (r : Conn × Bool). Follows c r.0) (c.streams id) _ _
      (λ there. same-Follows c _ q refl refl refl refl refl refl refl) (λ absent. (Keeps-self c, q))

pub set_on_writable-Follows :
    (c : Conn) (id : ℕ) (callback : Bool) → HasQueue c → Follows c (set_on_writable c id callback).0
unfolding set_on_writable
set_on_writable-Follows c id callback q =
    if-elim (λ (r : Conn × Bool). Follows c r.0) (c.streams id) _ _
      (λ there. same-Follows c _ q refl refl refl refl refl refl refl) (λ absent. (Keeps-self c, q))
