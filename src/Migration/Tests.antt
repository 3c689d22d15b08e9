-- ===== src/Migration/Tests.antt =====
-- Migration of a concrete connection.
use nxp.Prelude.{ℕ, ◌≡◌, ◌⊎◌, refl, arith, List, [], ◌∷◌, some, Bool, true, false, replicate}
use nxp.Frame.Types.{ConnId}
use nxp.Migration.{
  Addr, CidEntry, MigrationState, init, no_path, has_seq, begin_validation, on_peer_addr_change,
  on_path_response, same_bytes,
}
use nxp.Migration.Path.{Event, handle, after, IsValidated, current_path-IsValidated}
use nxp.Migration.Pool.{IsPool, IsDistinct, count_in_use}
use nxp.Migration.Kept.{after-IsPool}

abbrev home : Addr
home = record { bytes = 10 ∷ 0 ∷ 0 ∷ 1 ∷ []; len = 4 }

abbrev mobile : Addr
mobile = record { bytes = 10 ∷ 0 ∷ 0 ∷ 2 ∷ []; len = 4 }

abbrev challenge : List ℕ
challenge = 1 ∷ 2 ∷ 3 ∷ 4 ∷ 5 ∷ 6 ∷ 7 ∷ 8 ∷ []

abbrev at_home : MigrationState
at_home = record init { current_path = record no_path { addr = home; validated = true } }

-- A move to another address: a wrong response, then the right one.
abbrev moves : List Event
moves =
    Event.responded challenge
    ∷ Event.responded (0 ∷ [])
    ∷ Event.addr_changed mobile 1000 (some challenge)
    ∷ []

moved : (after at_home moves).current_path.addr ≡ mobile
unfolding after handle on_path_response on_peer_addr_change begin_validation same_bytes init no_path
moved = refl

current_path-IsValidated_example :
    ((after at_home moves).current_path.addr ≡ home)
    ⊎ IsValidated (after at_home moves).current_path.addr moves
unfolding init no_path
current_path-IsValidated_example = current_path-IsValidated at_home moves refl

abbrev cid : ConnId
cid = record { bytes = 7 ∷ 8 ∷ 9 ∷ replicate 17 0; len = 3 }

abbrev entry : ℕ → Bool → CidEntry
entry seq_num in_use = record {
  cid = cid;
  seq_num = seq_num;
  stateless_reset_token = replicate 16 0;
  in_use = in_use;
  retired = false;
}

abbrev pooled : MigrationState
pooled = record init { peer_cid_pool = entry 0 true ∷ entry 1 false ∷ [] }

pooled-IsPool : IsPool (entry 0 true ∷ entry 1 false ∷ [])
unfolding IsDistinct count_in_use has_seq
pooled-IsPool = (omega arith, (refl, (refl, tt)), omega arith)

-- The peer offers an id and retires the one in use; then the connection switches to another.
abbrev switches : List Event
switches = Event.cid_used 1 ∷ Event.cid_offered cid 2 1 (replicate 16 1) ∷ []

after-IsPool_example : IsPool (after pooled switches).peer_cid_pool
after-IsPool_example = after-IsPool pooled switches pooled-IsPool
