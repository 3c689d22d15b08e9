-- ===== src/Connection/Keeps.antt =====
-- What every operation of a connection keeps, besides the opening of a stream by the application.
pub mod Acks
pub mod Frames
pub mod Sends
pub mod Whole
pub mod Calls
use nxp.Prelude.{
  ℕ, ◌≤◌, ◌≡◌, ◌⊎◌, inl, inr, refl, sym, ap, ◌∙◌, subst, arith, List, [], ◌∷◌, Option, none, some,
  Bool, true, false, if◌then◌else◌, Bool-cases,
}
use nxp.Flow.{FlowCtrl, set_peer_max}
use nxp.Scheduler.{add}
use nxp.Scheduler.Queue.{IsQueue, add-enqueue, enqueue}
use nxp.Connection.{Conn, set_conn_state}
use nxp.Connection.States.{ConnState, number, number_grows, is_valid_conn_state_transition}
use nxp.Connection.StreamId.{stream_id_is_local}

-- While no update is due, the window that the connection offers its peer stays as it is.
abbrev pub IsSameWindow : FlowCtrl → FlowCtrl → Type 0
IsSameWindow f g =
    (f.send_max_data ≡ false)
    → (g.send_max_data ≡ false)
      × (g.local_max_data ≡ f.local_max_data)
      × (g.data_recv ≡ f.data_recv)

pub record Keeps (a b : Conn) : Type 0 where
  pub forward : number a.state ≤ number b.state
  pub window : IsSameWindow a.conn_flow b.conn_flow
  pub credit : a.conn_flow.peer_max_data ≤ b.conn_flow.peer_max_data
  pub side : b.is_server ≡ a.is_server
  pub known : (id : ℕ) → a.streams id ≡ true → b.streams id ≡ true
  pub opened :
      (id : ℕ)
      → b.streams id ≡ true
      → (a.streams id ≡ true) ⊎ (stream_id_is_local id a.is_server ≡ false)
  pub bidi : b.next_bidi_id ≡ a.next_bidi_id
  pub uni : b.next_uni_id ≡ a.next_uni_id

pub Keeps-same :
    (a b : Conn)
    → b.state ≡ a.state
    → b.conn_flow ≡ a.conn_flow
    → b.is_server ≡ a.is_server
    → b.streams ≡ a.streams
    → b.next_bidi_id ≡ a.next_bidi_id
    → b.next_uni_id ≡ a.next_uni_id
    → Keeps a b
Keeps-same a b st fl side str bidi uni = record {
  forward = rw st (omega arith);
  window = λ h. rw fl (h, refl, refl);
  credit = rw fl (omega arith);
  side = side;
  known = λ id h. rw str h;
  opened = λ id h. inl (rw (← str) h);
  bidi = bidi;
  uni = uni;
}

pub Keeps-self : (a : Conn) → Keeps a a
Keeps-self a = Keeps-same a a refl refl refl refl refl refl

pub Keeps-trans : {a b c : Conn} → Keeps a b → Keeps b c → Keeps a c
Keeps-trans h k = record {
  forward = omega (arith, h.forward, k.forward);
  window = λ e.
      let one = h.window e in let two = k.window one.0 in (two.0, two.1 ∙ one.1, two.2 ∙ one.2);
  credit = omega (arith, h.credit, k.credit);
  side = k.side ∙ h.side;
  known = λ id e. k.known id (h.known id e);
  opened = λ id e. elim (k.opened id e) [
    | inl there ↦ h.opened id there
    | inr remote ↦ inr (ap (stream_id_is_local id) (sym h.side) ∙ remote)
  ];
  bidi = k.bidi ∙ h.bidi;
  uni = k.uni ∙ h.uni;
}

set_conn_state-forward :
    (conn : Conn) (to : ConnState) → number conn.state ≤ number (set_conn_state conn to).state
unfolding set_conn_state
set_conn_state-forward conn to = elim (Bool-cases (is_valid_conn_state_transition conn.state to)) [
  | inl valid ↦ rw valid (number_grows conn.state to valid)
  | inr invalid ↦ rw invalid (omega arith)
]

set_conn_state-others :
    (conn : Conn) (to : ConnState)
    → let c = set_conn_state conn to in
      (c.conn_flow ≡ conn.conn_flow)
      × (c.is_server ≡ conn.is_server)
      × (c.streams ≡ conn.streams)
      × (c.next_bidi_id ≡ conn.next_bidi_id)
      × (c.next_uni_id ≡ conn.next_uni_id)
      × (c.sched ≡ conn.sched)
unfolding set_conn_state
set_conn_state-others conn to = ground arith

pub set_conn_state-Keeps : (conn : Conn) (to : ConnState) → Keeps conn (set_conn_state conn to)
set_conn_state-Keeps conn to =
    let same = set_conn_state-others conn to in
    record {
      forward = set_conn_state-forward conn to;
      window = λ h. rw same.0 (h, refl, refl);
      credit = rw same.0 (omega arith);
      side = same.1;
      known = λ id h. rw same.2 h;
      opened = λ id h. inl (rw (← same.2) h);
      bidi = same.3;
      uni = same.4;
    }

pub set_conn_state-sched :
    (conn : Conn) (to : ConnState) → (set_conn_state conn to).sched ≡ conn.sched
set_conn_state-sched conn to = (set_conn_state-others conn to).5

-- Only credit of the peer changes the control of the flow.
pub Keeps-credit :
    (a : Conn) (n : ℕ) → Keeps a (record a { conn_flow = set_peer_max a.conn_flow n })
unfolding set_peer_max
Keeps-credit a n = record {
  forward = omega arith;
  window = λ h. ground (arith, h);
  credit = ground arith;
  side = refl;
  known = λ id h. h;
  opened = λ id h. inl h;
  bidi = refl;
  uni = refl;
}

-- The scheduler is in order.
abbrev pub HasQueue : Conn → Type 0
HasQueue conn = (xs : List ℕ) × IsQueue conn.sched xs

abbrev pub Follows : Conn → Conn → Type 0
Follows a b = Keeps a b × HasQueue b

-- An operation that may follow a null pointer does not.
abbrev pub IsSafe : Conn → Option Conn → Type 0
IsSafe a r = (b : Conn) × (r ≡ some b) × Follows a b

pub IsSafe-trans : {a b : Conn} {r : Option Conn} → Keeps a b → IsSafe b r → IsSafe a r
IsSafe-trans h (c, e, k) = (c, e, (Keeps-trans h k.0, k.1))
