-- ===== src/Migration/Kept.antt =====
-- The pool of the peer's connection ids through any sequence of calls.
use nxp.Prelude.{
  length, length-append, min, max, ◌+◌, arith, ℕ, zero, suc, ◌≡◌, refl, sym, subst, List, [], ◌∷◌,
  Option, none, some,
}
use nxp.Frame.Types.{ConnId}
use nxp.Migration.{
  default_active_cid_limit, new_entry, Addr, CidEntry, MigrationState, Drawn, begin_validation,
  on_peer_addr_change, on_path_challenge, on_path_response, on_retire_connection_id, generate_one,
  generate_from, turns, generate_cids, check_timeout,
}
use nxp.Migration.Path.{Event, handle, after}
use nxp.Migration.Pool.{IsPool, on_new_connection_id-IsPool, use_cid-IsPool}

generate_from-pool :
    (n : ℕ) (ms : MigrationState) (base_scid : ConnId) (draw : ℕ → Drawn)
    → (generate_from n ms base_scid draw).peer_cid_pool ≡ ms.peer_cid_pool
unfolding generate_from generate_one
generate_from-pool zero ms base_scid draw = refl
generate_from-pool (suc n) ms base_scid draw =
    generate_from-pool n (generate_one ms base_scid (draw ms.local_cid_next_seq)) base_scid draw

change-pool :
    (ms : MigrationState) (a : Addr) (t : ℕ) (random : Option (List ℕ))
    → (on_peer_addr_change ms a t random).0.peer_cid_pool ≡ ms.peer_cid_pool
unfolding on_peer_addr_change begin_validation
change-pool ms a t none = ground arith
change-pool ms a t (some challenge) = ground arith

response-pool :
    (ms : MigrationState) (bytes : List ℕ)
    → (on_path_response ms bytes).0.peer_cid_pool ≡ ms.peer_cid_pool
unfolding on_path_response
response-pool ms bytes = ground arith

timeout-pool :
    (ms : MigrationState) (now_us pto_us : ℕ)
    → (check_timeout ms now_us pto_us).0.peer_cid_pool ≡ ms.peer_cid_pool
unfolding check_timeout
timeout-pool ms now_us pto_us = ground arith

same-IsPool : (xs ys : List CidEntry) → ys ≡ xs → IsPool xs → IsPool ys
same-IsPool xs ys e v = subst (λ l. IsPool l) (sym e) v

handle-IsPool :
    (ms : MigrationState) (e : Event) → IsPool ms.peer_cid_pool → IsPool (handle ms e).peer_cid_pool
unfolding handle on_path_challenge on_retire_connection_id generate_cids
handle-IsPool ms (Event.addr_changed a t random) v = same-IsPool _ _ (change-pool ms a t random) v
handle-IsPool ms (Event.challenged bytes) v = v
handle-IsPool ms (Event.responded bytes) v = same-IsPool _ _ (response-pool ms bytes) v
handle-IsPool ms (Event.cid_offered cid seq_num retire_prior_to token) v =
    on_new_connection_id-IsPool ms cid seq_num retire_prior_to token v
handle-IsPool ms (Event.cid_retired seq_num) v = v
handle-IsPool ms (Event.cid_used seq_num) v = (use_cid-IsPool ms seq_num v).0
handle-IsPool ms (Event.cids_generated base_scid draw) v =
    same-IsPool _ _ (generate_from-pool (turns ms) ms base_scid draw) v
handle-IsPool ms (Event.timer_fired now_us pto_us) v =
    same-IsPool _ _ (timeout-pool ms now_us pto_us) v

-- Through any sequence of calls the pool keeps within its 8 slots, without a sequence number twice, and
-- with one entry in use at most.
pub after-IsPool :
    (ms : MigrationState) (past : List Event)
    → IsPool ms.peer_cid_pool
    → IsPool (after ms past).peer_cid_pool
unfolding after
after-IsPool ms [] v = v
after-IsPool ms (e ∷ past) v = handle-IsPool (after ms past) e (after-IsPool ms past v)

length-generate_from :
    (n : ℕ) (ms : MigrationState) (base_scid : ConnId) (draw : ℕ → Drawn)
    → length (generate_from n ms base_scid draw).pending_new_cids ≡ length ms.pending_new_cids + n
unfolding generate_from generate_one
length-generate_from zero ms base_scid draw = omega arith
length-generate_from (suc n) ms base_scid draw = omega (
  arith,
  length-generate_from n (generate_one ms base_scid (draw ms.local_cid_next_seq)) base_scid draw,
  length-append ms.pending_new_cids
      (new_entry base_scid ms.local_cid_next_seq (draw ms.local_cid_next_seq) ∷ []),
)

-- Behind the turns that are counted the condition of the loop fails: as many entries wait as the peer's
-- limit, or four, or more if more waited before.
pub length-generate_cids :
    (ms : MigrationState) (base_scid : ConnId) (draw : ℕ → Drawn)
    → length (generate_cids ms base_scid draw).0.pending_new_cids
      ≡ max (length ms.pending_new_cids) (min ms.active_cid_limit default_active_cid_limit)
unfolding generate_cids turns
length-generate_cids ms base_scid draw = omega (arith, length-generate_from _ ms base_scid draw)
