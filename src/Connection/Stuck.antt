-- ===== src/Connection/Stuck.antt =====
-- A stream over its rate limit in the loop of `nxp_conn_send`, and a handshake that did not start.
use nxp.Prelude.{
  ℕ, zero, suc, ◌≡◌, refl, sym, ap, ◌∙◌, subst, arith, some, Bool, true, false, not, ◌&&◌, ◌==◌,
  ltb, if◌then◌else◌,
}
use nxp.Frame.Types.{ConnId}
use nxp.StreamRate
use nxp.StreamRate.{StreamRate}
use nxp.Stream.{Stream, unsent}
use nxp.Flow
use nxp.Scheduler.{assign, is_idle}
use nxp.Scheduler.Turns.{next-stays}
use nxp.Connection.{Conn, TransportParams, set_conn_state}
use nxp.Connection.States.{ConnState, is_state, number, is_valid_conn_state_transition, follows}
use nxp.Connection.Frames.{ConnError}
use nxp.Connection.Api.{Started, enter_handshake, local_params, after_start, start_handshake}
use nxp.Connection.Send.{Packing}
use nxp.Connection.Send.Streams.{
  Turn, Packed, with_sched, serve_next, serve, fill_limited, block, turn, is_full, pack_streams,
}

-- One stream is in the scheduler; it has data, the peer grants credit, and its rate limit grants nothing.
pub record IsStarved (x now_us : ℕ) (p : Packing) : Type 0 where
  pub room : is_full p ≡ false
  pub head : p.conn.sched.sched_head ≡ some x
  pub alone : p.conn.sched.sched_next x ≡ some x
  pub busy : is_idle (p.conn.stream_at x) ≡ false
  pub credit :
      (ltb 0 (unsent (p.conn.stream_at x)) && not (Flow.can_send p.conn.conn_flow 1)) ≡ false
  pub limited : (p.conn.stream_at x).rate_limit.enabled ≡ true
  pub spent :
      (StreamRate.budget (StreamRate.update (p.conn.stream_at x).rate_limit now_us) == 0) ≡ true

update_twice :
    (r : StreamRate) (now_us : ℕ)
    → StreamRate.update (StreamRate.update r now_us) now_us ≡ StreamRate.update r now_us
unfolding StreamRate.update
update_twice r now_us = ground arith

update-enabled : (r : StreamRate) (now_us : ℕ) → (StreamRate.update r now_us).enabled ≡ r.enabled
unfolding StreamRate.update
update-enabled r now_us = ground arith

assign-here : {A : Type 0} (f : ℕ → A) (x : ℕ) (v : A) → assign f x v x ≡ v
unfolding assign
assign-here f x v = let yes : (x == x) ≡ true = ground arith in simp (yes, if◌then◌else◌)

module _ (x now_us : ℕ) (p : Packing) where
  abbrev limited_stream : Stream
  limited_stream = record (p.conn.stream_at x) {
    rate_limit = StreamRate.update (p.conn.stream_at x).rate_limit now_us;
  }

  abbrev blocked_packing : Packing
  blocked_packing =
      block (with_sched p (record p.conn.sched { sched_head = p.conn.sched.sched_next x })) x
        limited_stream

  turn-again : IsStarved x now_us p → turn p now_us ≡ Turn.again blocked_packing
  unfolding turn serve_next serve fill_limited with_sched
  turn-again h =
      ap (λ r. serve_next p r now_us) (next-stays p.conn.stream_at p.conn.sched x h.head h.busy)
      ∙ simp (h.credit, h.limited, h.spent, if◌then◌else◌)

  blocked-IsStarved : IsStarved x now_us p → IsStarved x now_us blocked_packing
  unfolding block with_sched is_full is_idle unsent Flow.can_send
  blocked-IsStarved h =
      let s = p.conn.stream_at x in
      let here : blocked_packing.conn.stream_at x ≡ limited_stream =
        assign-here p.conn.stream_at x limited_stream in
      record {
        room = h.room;
        head = h.alone;
        alone = h.alone;
        busy = subst (λ t. is_idle t ≡ false) (sym here) h.busy;
        credit =
            subst (λ t. (ltb 0 (unsent t) && not (Flow.can_send p.conn.conn_flow 1)) ≡ false)
              (sym here) h.credit;
        limited =
            subst (λ (t : Stream). t.rate_limit.enabled ≡ true) (sym here)
              (update-enabled s.rate_limit now_us ∙ h.limited);
        spent =
            subst
              (λ (t : Stream).
                (StreamRate.budget (StreamRate.update t.rate_limit now_us) == 0) ≡ true)
              (sym here) (rw (update_twice s.rate_limit now_us) h.spent);
      }

-- When the only stream of the scheduler has data that its rate limit holds back, and the packet has room, the
-- loop that packs stream frames never ends: no number of turns is enough.
pub pack_streams-starved :
    (fuel x now_us : ℕ) (p : Packing)
    → IsStarved x now_us p
    → pack_streams fuel p now_us ≡ Packed.out_of_fuel
unfolding pack_streams
pack_streams-starved zero x now_us p h = simp (h.room, if◌then◌else◌)
pack_streams-starved (suc fuel) x now_us p h =
    simp (pack_streams, h.room, turn-again x now_us p h, if◌then◌else◌)
      (pack_streams-starved fuel x now_us (blocked_packing x now_us p)
        (blocked-IsStarved x now_us p h))

state_is : (s : ConnState) → is_state s ConnState.idle ≡ true → s ≡ ConnState.idle
unfolding is_state number
state_is ConnState.idle h = refl
state_is ConnState.handshake_initial h = absurd (ground (arith, h))
state_is ConnState.handshake_in_progress h = absurd (ground (arith, h))
state_is ConnState.established h = absurd (ground (arith, h))
state_is ConnState.closing h = absurd (ground (arith, h))
state_is ConnState.draining h = absurd (ground (arith, h))
state_is ConnState.closed h = absurd (ground (arith, h))

module _ (conn : Conn) (to : ConnState) where
  set_conn_state-valid :
      is_valid_conn_state_transition conn.state to ≡ true → (set_conn_state conn to).state ≡ to
  unfolding set_conn_state
  set_conn_state-valid h = rw h refl

  set_conn_state-invalid :
      is_valid_conn_state_transition conn.state to ≡ false → set_conn_state conn to ≡ conn
  unfolding set_conn_state
  set_conn_state-invalid h = simp (h, if◌then◌else◌)

addressed : Conn → ConnId → Conn
addressed conn peer_cid = if conn.is_server then conn else record conn { dcid = peer_cid }

addressed-same :
    (conn : Conn) (peer_cid : ConnId)
    → ((addressed conn peer_cid).state ≡ conn.state)
      × ((addressed conn peer_cid).handshake ≡ conn.handshake)
unfolding addressed
addressed-same conn peer_cid = ground arith

entered :
    (conn : Conn) (peer_cid : ConnId)
    → conn.state ≡ ConnState.idle
    → (enter_handshake conn peer_cid).state ≡ ConnState.handshake_initial
unfolding enter_handshake is_valid_conn_state_transition follows is_state number addressed
entered conn peer_cid e =
    set_conn_state-valid (addressed conn peer_cid) ConnState.handshake_initial
      (rw ((addressed-same conn peer_cid).0 ∙ e) refl)

entered-handshake :
    (conn : Conn) (peer_cid : ConnId) → (enter_handshake conn peer_cid).handshake ≡ conn.handshake
unfolding enter_handshake set_conn_state
entered-handshake conn peer_cid = ground arith

-- If a connection in IDLE starts a handshake and that is refused with an error, the call returns this error
-- and leaves the connection in HANDSHAKE_INITIAL with the handshake that it had before; there, every further
-- start is refused with INVALID_ARGUMENT and changes nothing.
pub start_handshake-refused :
    (start start' : Bool → TransportParams → ConnId → Started) (conn : Conn)
    (peer_cid peer_cid' : ConnId) (error : ConnError)
    → is_state conn.state ConnState.idle ≡ true
    → start conn.is_server (local_params conn) peer_cid ≡ Started.refused error
    → let after = (start_handshake start conn peer_cid).0 in
      ((start_handshake start conn peer_cid).1 ≡ some error)
      × (is_state after.state ConnState.handshake_initial ≡ true)
      × (after.handshake ≡ conn.handshake)
      × (start_handshake start' after peer_cid' ≡ (after, some ConnError.invalid_argument))
unfolding start_handshake after_start is_state number is_valid_conn_state_transition follows
start_handshake-refused start start' conn peer_cid peer_cid' error idle refused =
    let e = state_is conn.state idle in
    let stuck = enter_handshake conn peer_cid in
    let there : stuck.state ≡ ConnState.handshake_initial = entered conn peer_cid e in
    let ignored : set_conn_state stuck ConnState.idle ≡ stuck =
      set_conn_state-invalid stuck ConnState.idle (rw there refl) in
    let result : start_handshake start conn peer_cid ≡ (stuck, some error) =
      simp (start_handshake, after_start, idle, refused, ignored, if◌then◌else◌) in
    let busy : is_state stuck.state ConnState.idle ≡ false = rw there refl in
    rw result (
      refl,
      rw there refl,
      entered-handshake conn peer_cid,
      simp (start_handshake, busy, if◌then◌else◌),
    )
