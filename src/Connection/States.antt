-- ===== src/Connection/States.antt =====
-- The states of a connection: `nxp_conn_state` of include/nxp/nxp_types.h, and
-- `is_valid_conn_state_transition` of src/core/connection.c.
use nxp.Prelude.{ℕ, ◌≤◌, ◌<◌, ◌≡◌, arith, Bool, true, false, ◌||◌, ◌==◌, if◌then◌else◌}

pub data ConnState : Type 0 where
  idle handshake_initial handshake_in_progress established closing draining closed : ConnState

-- The number of a state in the enumeration.
unfoldable pub number : ConnState → ℕ
number ConnState.idle = 0
number ConnState.handshake_initial = 1
number ConnState.handshake_in_progress = 2
number ConnState.established = 3
number ConnState.closing = 4
number ConnState.draining = 5
number ConnState.closed = 6

-- `==` on the enumeration.
unfoldable pub is_state : ConnState → ConnState → Bool
is_state a b = number a == number b

-- The switch on the present state.
unfoldable pub follows : ConnState → ConnState → Bool
follows ConnState.idle to =
    is_state to ConnState.handshake_initial || is_state to ConnState.established
follows ConnState.handshake_initial to =
    is_state to ConnState.handshake_in_progress
    || (is_state to ConnState.established || is_state to ConnState.handshake_initial)
follows ConnState.handshake_in_progress to = is_state to ConnState.established
follows ConnState.established to =
    is_state to ConnState.closing
    || (is_state to ConnState.draining || is_state to ConnState.established)
follows ConnState.closing to = is_state to ConnState.draining || is_state to ConnState.closed
follows ConnState.draining to = is_state to ConnState.closed
follows ConnState.closed to = false

unfoldable pub is_valid_conn_state_transition : ConnState → ConnState → Bool
is_valid_conn_state_transition from to =
    if is_state to ConnState.closed then true else follows from to

-- No transition leads back.
pub number_grows :
    (from to : ConnState) → is_valid_conn_state_transition from to ≡ true → number from ≤ number to
unfolding is_valid_conn_state_transition follows number is_state
number_grows ConnState.idle to h = ground arith
number_grows ConnState.handshake_initial to h = ground arith
number_grows ConnState.handshake_in_progress to h = ground arith
number_grows ConnState.established to h = ground arith
number_grows ConnState.closing to h = ground arith
number_grows ConnState.draining to h = ground arith
number_grows ConnState.closed to h = ground arith

pub number_below : (state : ConnState) → number state < 7
unfolding number
number_below ConnState.idle = omega arith
number_below ConnState.handshake_initial = omega arith
number_below ConnState.handshake_in_progress = omega arith
number_below ConnState.established = omega arith
number_below ConnState.closing = omega arith
number_below ConnState.draining = omega arith
number_below ConnState.closed = omega arith
