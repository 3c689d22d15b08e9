-- ===== src/Migration.antt =====
-- Connection migration: src/core/migration.c and src/core/migration_internal.h.
-- The pools are the lists of their entries in use; a count is the length of its list. What
-- `nxp_random_bytes` of src/util/random.c draws is an argument, `none` for its failure.
pub mod Pool
pub mod Path
pub mod Kept
mod Tests
use nxp.Prelude.{
  ℕ, zero, suc, ◌+◌, ◌-◌, ◌*◌, ◌%◌, List, [], ◌∷◌, ◌++◌, Option, none, some, Bool, true, false, not,
  ◌&&◌, ◌||◌, ltb, leb, ◌==◌, if◌then◌else◌, length, take, min,
}
use nxp.Prelude.Word.{add64, mul64}
use nxp.Frame.Types.{ConnId}

-- `NXP_MAX_CID_POOL_SIZE`, `NXP_DEFAULT_ACTIVE_CID_LIMIT` and `NXP_PATH_VALIDATION_TIMEOUT_FACTOR`
abbrev pub max_cid_pool_size : ℕ
max_cid_pool_size = 8

abbrev pub default_active_cid_limit : ℕ
default_active_cid_limit = 4

abbrev pub path_validation_timeout_factor : ℕ
path_validation_timeout_factor = 3

-- `nxp_addr`: nothing here looks into an address.
pub record Addr : Type 0 where
  pub bytes : List ℕ
  pub len : ℕ

pub record CidEntry : Type 0 where
  pub cid : ConnId
  pub seq_num : ℕ
  pub stateless_reset_token : List ℕ
  pub in_use : Bool
  pub retired : Bool

pub record PathState : Type 0 where
  pub addr : Addr
  pub challenge_data : List ℕ
  pub challenge_sent_time : ℕ
  pub challenge_pending : Bool
  pub validated : Bool

pub record MigrationState : Type 0 where
  pub peer_cid_pool : List CidEntry
  pub local_cid_next_seq : ℕ
  pub current_path : PathState
  pub new_path : PathState
  pub migration_in_progress : Bool
  pub send_path_challenge : Bool
  pub send_path_response : Bool
  pub pending_response_data : List ℕ
  pub pending_new_cids : List CidEntry
  pub send_retire_cid : Bool
  pub retire_seq : ℕ
  pub active_cid_limit : ℕ
  pub enabled : Bool

abbrev zeros_8 : List ℕ
zeros_8 = 0 ∷ 0 ∷ 0 ∷ 0 ∷ 0 ∷ 0 ∷ 0 ∷ 0 ∷ []

-- What `memset` leaves.
unfoldable pub no_path : PathState
no_path = record {
  addr = record { bytes = []; len = 0 };
  challenge_data = zeros_8;
  challenge_sent_time = 0;
  challenge_pending = false;
  validated = false;
}

-- `nxp_migration_init`
unfoldable pub init : MigrationState
init = record {
  peer_cid_pool = [];
  local_cid_next_seq = 1;
  current_path = no_path;
  new_path = no_path;
  migration_in_progress = false;
  send_path_challenge = false;
  send_path_response = false;
  pending_response_data = zeros_8;
  pending_new_cids = [];
  send_retire_cid = false;
  retire_seq = 0;
  active_cid_limit = default_active_cid_limit;
  enabled = true;
}

pub data MigrationError : Type 0 where
  invalid_argument : MigrationError
  no_random : MigrationError

-- The new path, and whether it could be set up; a failed draw leaves the address and the flag changed.
unfoldable pub begin_validation :
    MigrationState → Addr → ℕ → Option (List ℕ) → MigrationState × Option MigrationError
begin_validation ms new_addr now_us none = (
  record ms { new_path = record ms.new_path { addr = new_addr; validated = false } },
  some MigrationError.no_random,
)
begin_validation ms new_addr now_us (some random) = (
  record ms {
    new_path = record {
      addr = new_addr;
      challenge_data = random;
      challenge_sent_time = now_us;
      challenge_pending = true;
      validated = false;
    };
    send_path_challenge = true;
    migration_in_progress = true;
  },
  none,
)

-- `nxp_migration_on_peer_addr_change`, with the random bytes that it would draw.
unfoldable pub on_peer_addr_change :
    MigrationState → Addr → ℕ → Option (List ℕ) → MigrationState × Option MigrationError
on_peer_addr_change ms new_addr now_us random =
    if not ms.enabled
    then (ms, some MigrationError.invalid_argument)
    else if ms.migration_in_progress
    then (ms, none)
    else begin_validation ms new_addr now_us random

unfoldable pub on_path_challenge : MigrationState → List ℕ → MigrationState
on_path_challenge ms bytes = record ms { pending_response_data = bytes; send_path_response = true }

-- `memcmp(...) == 0`
unfoldable pub same_bytes : List ℕ → List ℕ → Bool
same_bytes [] [] = true
same_bytes (a ∷ xs) (b ∷ ys) = a == b && same_bytes xs ys
same_bytes _ _ = false

unfoldable pub on_path_response : MigrationState → List ℕ → MigrationState × Bool
on_path_response ms bytes =
    if not ms.new_path.challenge_pending
    then (ms, false)
    else if not (same_bytes bytes ms.new_path.challenge_data)
    then (ms, false)
    else (
      record ms {
        current_path = record ms.new_path { validated = true; challenge_pending = false };
        migration_in_progress = false;
        new_path = no_path;
      },
      true,
    )

-- One turn of the loop that retires.
unfoldable pub retire : ℕ → CidEntry → CidEntry
retire retire_prior_to e =
    if ltb e.seq_num retire_prior_to && not e.retired
    then record e { retired = true; in_use = false }
    else e

unfoldable pub retire_all : ℕ → List CidEntry → List CidEntry
retire_all retire_prior_to [] = []
retire_all retire_prior_to (e ∷ pool) = retire retire_prior_to e ∷ retire_all retire_prior_to pool

unfoldable pub has_seq : ℕ → List CidEntry → Bool
has_seq seq_num [] = false
has_seq seq_num (e ∷ pool) = e.seq_num == seq_num || has_seq seq_num pool

-- Into the first slot that is retired and not in use; without one the entry is dropped.
unfoldable pub reuse_slot : CidEntry → List CidEntry → List CidEntry
reuse_slot entry [] = []
reuse_slot entry (e ∷ pool) =
    if e.retired && not e.in_use then entry ∷ pool else e ∷ reuse_slot entry pool

unfoldable pub add_entry : CidEntry → List CidEntry → List CidEntry
add_entry entry pool =
    if ltb (length pool) max_cid_pool_size then pool ++ (entry ∷ []) else reuse_slot entry pool

-- `nxp_migration_on_new_connection_id`, which always succeeds.
unfoldable pub on_new_connection_id : MigrationState → ConnId → ℕ → ℕ → List ℕ → MigrationState
on_new_connection_id ms cid seq_num retire_prior_to stateless_reset_token =
    let pool = retire_all retire_prior_to ms.peer_cid_pool in
    let entry : CidEntry = record {
      cid = cid;
      seq_num = seq_num;
      stateless_reset_token = take 16 stateless_reset_token;
      in_use = false;
      retired = false;
    } in
    if has_seq seq_num pool
    then record ms { peer_cid_pool = pool }
    else record ms { peer_cid_pool = add_entry entry pool }

unfoldable pub on_retire_connection_id : MigrationState → ℕ → MigrationState
on_retire_connection_id ms seq_num = ms

unfoldable pub first_unused : List CidEntry → Option CidEntry
first_unused [] = none
first_unused (e ∷ pool) = if not e.in_use && not e.retired then some e else first_unused pool

unfoldable pub get_unused_cid : MigrationState → Option CidEntry
get_unused_cid ms = first_unused ms.peer_cid_pool

unfoldable pub release_all : List CidEntry → List CidEntry
release_all [] = []
release_all (e ∷ pool) = record e { in_use = false } ∷ release_all pool

-- The sequence number of the last entry in use.
unfoldable pub last_in_use : List CidEntry → Option ℕ
last_in_use [] = none
last_in_use (e ∷ pool) = elim (last_in_use pool) [
  | some seq ↦ some seq
  | none ↦ if e.in_use then some e.seq_num else none
]

-- The first entry with this sequence number comes into use.
unfoldable pub mark_in_use : ℕ → List CidEntry → List CidEntry
mark_in_use seq_num [] = []
mark_in_use seq_num (e ∷ pool) =
    if e.seq_num == seq_num then record e { in_use = true } ∷ pool else e ∷ mark_in_use seq_num pool

unfoldable pub queue_retirement : MigrationState → Option ℕ → MigrationState
queue_retirement ms none = ms
queue_retirement ms (some seq) = record ms { send_retire_cid = true; retire_seq = seq }

unfoldable pub use_cid : MigrationState → ℕ → MigrationState
use_cid ms seq_num = record (queue_retirement ms (last_in_use ms.peer_cid_pool)) {
  peer_cid_pool = mark_in_use seq_num (release_all ms.peer_cid_pool);
}

-- The random bytes of one new entry: those of its connection id and its token.
pub record Drawn : Type 0 where
  pub cid_bytes : List ℕ
  pub token : List ℕ

unfoldable pub new_entry : ConnId → ℕ → Drawn → CidEntry
new_entry base_scid seq_num drawn = record {
  cid = record { bytes = drawn.cid_bytes; len = base_scid.len };
  seq_num = seq_num;
  stateless_reset_token = drawn.token;
  in_use = false;
  retired = false;
}

unfoldable pub generate_one : MigrationState → ConnId → Drawn → MigrationState
generate_one ms base_scid drawn = record ms {
  local_cid_next_seq = add64 ms.local_cid_next_seq 1;
  pending_new_cids = ms.pending_new_cids ++ (new_entry base_scid ms.local_cid_next_seq drawn ∷ []);
}

-- The loop, for as many turns as are left; `draw` gives what is drawn for a sequence number.
unfoldable pub generate_from : ℕ → MigrationState → ConnId → (ℕ → Drawn) → MigrationState
generate_from zero ms base_scid draw = ms
generate_from (suc n) ms base_scid draw =
    generate_from n (generate_one ms base_scid (draw ms.local_cid_next_seq)) base_scid draw

-- How often the condition of the loop holds.
unfoldable pub turns : MigrationState → ℕ
turns ms = min ms.active_cid_limit default_active_cid_limit - length ms.pending_new_cids

-- `nxp_migration_generate_cids`: the state, and how many were generated.
unfoldable pub generate_cids : MigrationState → ConnId → (ℕ → Drawn) → MigrationState × ℕ
generate_cids ms base_scid draw = (generate_from (turns ms) ms base_scid draw, turns ms)

unfoldable pub has_pending : MigrationState → Bool
has_pending ms =
    ms.send_path_challenge
    || ms.send_path_response
    || ms.send_retire_cid
    || ltb 0 (length ms.pending_new_cids)

unfoldable pub check_timeout : MigrationState → ℕ → ℕ → MigrationState × Bool
check_timeout ms now_us pto_us =
    if not ms.new_path.challenge_pending
    then (ms, false)
    else if leb
        (add64 ms.new_path.challenge_sent_time (mul64 pto_us path_validation_timeout_factor)) now_us
    then (record ms { new_path = no_path; migration_in_progress = false }, true)
    else (ms, false)
