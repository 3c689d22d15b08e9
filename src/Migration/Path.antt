-- ===== src/Migration/Path.antt =====
-- Where the packets of a connection go: an address becomes the current one only if it was validated.
use nxp.Prelude.{
  ℕ, zero, suc, ◌≡◌, ◌⊎◌, inl, inr, refl, sym, ap, subst, arith, List, [], ◌∷◌, Option, none, some,
  Bool, true, false, not, if-elim, leb,
}
use nxp.Prelude.Word.{add64, mul64}
use nxp.Frame.Types.{ConnId}
use nxp.Migration.{
  Addr, PathState, MigrationState, MigrationError, Drawn, no_path, begin_validation,
  on_peer_addr_change, on_path_challenge, same_bytes, on_path_response, on_new_connection_id,
  on_retire_connection_id, queue_retirement, last_in_use, use_cid, generate_one, generate_from,
  turns, generate_cids, check_timeout, path_validation_timeout_factor,
}

-- The calls that change the state, with what the random source draws.
pub data Event : Type 0 where
  addr_changed : Addr → ℕ → Option (List ℕ) → Event
  challenged : List ℕ → Event
  responded : List ℕ → Event
  cid_offered : ConnId → ℕ → ℕ → List ℕ → Event
  cid_retired : ℕ → Event
  cid_used : ℕ → Event
  cids_generated : ConnId → (ℕ → Drawn) → Event
  timer_fired : ℕ → ℕ → Event

unfoldable pub handle : MigrationState → Event → MigrationState
handle ms (Event.addr_changed new_addr now_us random) =
    (on_peer_addr_change ms new_addr now_us random).0
handle ms (Event.challenged bytes) = on_path_challenge ms bytes
handle ms (Event.responded bytes) = (on_path_response ms bytes).0
handle ms (Event.cid_offered cid seq_num retire_prior_to token) =
    on_new_connection_id ms cid seq_num retire_prior_to token
handle ms (Event.cid_retired seq_num) = on_retire_connection_id ms seq_num
handle ms (Event.cid_used seq_num) = use_cid ms seq_num
handle ms (Event.cids_generated base_scid draw) = (generate_cids ms base_scid draw).0
handle ms (Event.timer_fired now_us pto_us) = (check_timeout ms now_us pto_us).0

-- The state after the events of a history, the latest one first.
unfoldable pub after : MigrationState → List Event → MigrationState
after ms [] = ms
after ms (e ∷ past) = handle (after ms past) e

abbrev pub Occurs : Event → List Event → Type 0
Occurs e [] = ⊥
Occurs e (x ∷ past) = (e ≡ x) ⊎ Occurs e past

-- A challenge with these bytes was made for the address, and the same bytes came back.
abbrev pub IsValidated : Addr → List Event → Type 0
IsValidated a past =
    (challenge : List ℕ) × (now_us : ℕ) × Occurs (Event.addr_changed a now_us (some challenge)) past
    × Occurs (Event.responded challenge) past

abbrev IsPending : PathState → List Event → Type 0
IsPending p past =
    Occurs (Event.addr_changed p.addr p.challenge_sent_time (some p.challenge_data)) past

-- A challenge that is out was made.
abbrev HasIssued : List Event → PathState → Type 0
HasIssued past p = (p.challenge_pending ≡ false) ⊎ IsPending p past

-- The current address is the first one, or was validated.
abbrev IsTrusted : Addr → List Event → PathState → Type 0
IsTrusted first past p = (p.addr ≡ first) ⊎ IsValidated p.addr past

-- Without a migration in progress no challenge is out.
pub record IsHonest (first : Addr) (past : List Event) (ms : MigrationState) : Type 0 where
  pub issued : HasIssued past ms.new_path
  pub trusted : IsTrusted first past ms.current_path
  pub settled : (ms.migration_in_progress ≡ true) ⊎ (ms.new_path.challenge_pending ≡ false)

same_bytes→≡ : (xs ys : List ℕ) → same_bytes xs ys ≡ true → xs ≡ ys
unfolding same_bytes
same_bytes→≡ [] [] h = refl
same_bytes→≡ [] (b ∷ ys) h = absurd (cc h)
same_bytes→≡ (a ∷ xs) [] h = absurd (cc h)
same_bytes→≡ (a ∷ xs) (b ∷ ys) h =
    let both : (a ≡ b) × (same_bytes xs ys ≡ true) = ground (arith, h) in
    rw (both.0, same_bytes→≡ xs ys both.1) refl

not-false : (b : Bool) → not b ≡ false → b ≡ true
not-false true h = refl
not-false false h = absurd (cc h)

issue_kept :
    (e : Event) (past : List Event) (p : PathState) → HasIssued past p → HasIssued (e ∷ past) p
issue_kept e past p (inl h) = inl h
issue_kept e past p (inr h) = inr (inr h)

trust_kept :
    (first : Addr) (e : Event) (past : List Event) (p : PathState)
    → IsTrusted first past p
    → IsTrusted first (e ∷ past) p
trust_kept first e past p (inl h) = inl h
trust_kept first e past p (inr (c, t, h, k)) = inr (c, t, inr h, inr k)

-- An event that leaves the paths and the flag alone.
later :
    (first : Addr) (ms ns : MigrationState) (e : Event) (past : List Event)
    → ns.new_path ≡ ms.new_path
    → ns.current_path ≡ ms.current_path
    → ns.migration_in_progress ≡ ms.migration_in_progress
    → IsHonest first past ms
    → IsHonest first (e ∷ past) ns
later first ms ns e past p q r v = record {
  issued = subst (λ x. HasIssued (e ∷ past) x) (sym p) (issue_kept e past ms.new_path v.issued);
  trusted =
      subst (λ x. IsTrusted first (e ∷ past) x) (sym q)
        (trust_kept first e past ms.current_path v.trusted);
  settled =
      subst (λ (b : Bool). (b ≡ true) ⊎ (ns.new_path.challenge_pending ≡ false)) (sym r)
        (subst
          (λ (x : PathState). (ms.migration_in_progress ≡ true) ⊎ (x.challenge_pending ≡ false))
          (sym p) v.settled);
}

generate_from-paths :
    (n : ℕ) (ms : MigrationState) (base_scid : ConnId) (draw : ℕ → Drawn)
    → ((generate_from n ms base_scid draw).new_path ≡ ms.new_path)
      × ((generate_from n ms base_scid draw).current_path ≡ ms.current_path)
      × ((generate_from n ms base_scid draw).migration_in_progress ≡ ms.migration_in_progress)
unfolding generate_from generate_one
generate_from-paths zero ms base_scid draw = (refl, refl, refl)
generate_from-paths (suc n) ms base_scid draw =
    generate_from-paths n (generate_one ms base_scid (draw ms.local_cid_next_seq)) base_scid draw

abbrev Keeps : MigrationState → MigrationState → Type 0
Keeps ms ns =
    (ns.new_path ≡ ms.new_path)
    × (ns.current_path ≡ ms.current_path)
    × (ns.migration_in_progress ≡ ms.migration_in_progress)

use_cid-Keeps : (ms : MigrationState) (seq_num : ℕ) → Keeps ms (use_cid ms seq_num)
unfolding use_cid
use_cid-Keeps ms seq_num = by_queue (last_in_use ms.peer_cid_pool)
  where
    by_queue : (q : Option ℕ) → Keeps ms (queue_retirement ms q)
    by_queue none = unfold queue_retirement in (refl, refl, refl)
    by_queue (some seq) = unfold queue_retirement in (refl, refl, refl)

new_cid-Keeps :
    (ms : MigrationState) (cid : ConnId) (seq_num retire_prior_to : ℕ) (token : List ℕ)
    → Keeps ms (on_new_connection_id ms cid seq_num retire_prior_to token)
unfolding on_new_connection_id
new_cid-Keeps ms cid seq_num retire_prior_to token = (ground arith, ground arith, ground arith)

begin-IsHonest :
    (first : Addr) (ms : MigrationState) (a : Addr) (t : ℕ) (random : Option (List ℕ))
    (past : List Event)
    → ms.new_path.challenge_pending ≡ false
    → IsHonest first past ms
    → IsHonest first (Event.addr_changed a t random ∷ past) (begin_validation ms a t random).0
unfolding begin_validation
begin-IsHonest first ms a t none past quiet v = record {
  issued = inl quiet;
  trusted = trust_kept first (Event.addr_changed a t none) past ms.current_path v.trusted;
  settled = inr quiet;
}
begin-IsHonest first ms a t (some challenge) past quiet v = record {
  issued = inr (inl refl);
  trusted =
      trust_kept first (Event.addr_changed a t (some challenge)) past ms.current_path v.trusted;
  settled = inl refl;
}

quiet_without :
    (ms : MigrationState)
    → ms.migration_in_progress ≡ false
    → (ms.migration_in_progress ≡ true) ⊎ (ms.new_path.challenge_pending ≡ false)
    → ms.new_path.challenge_pending ≡ false
quiet_without ms h (inl k) = absurd (ground (arith, h, k))
quiet_without ms h (inr k) = k

change-IsHonest :
    (first : Addr) (ms : MigrationState) (a : Addr) (t : ℕ) (random : Option (List ℕ))
    (past : List Event)
    → IsHonest first past ms
    → IsHonest first (Event.addr_changed a t random ∷ past) (on_peer_addr_change ms a t random).0
unfolding on_peer_addr_change
change-IsHonest first ms a t random past v =
    let e = Event.addr_changed a t random in
    if-elim (λ (x : MigrationState × Option MigrationError). IsHonest first (e ∷ past) x.0)
      (not ms.enabled) _ _ (λ off. later first ms ms e past refl refl refl v)
      (λ on.
        if-elim (λ (x : MigrationState × Option MigrationError). IsHonest first (e ∷ past) x.0)
          ms.migration_in_progress _ _ (λ busy. later first ms ms e past refl refl refl v)
          (λ free. begin-IsHonest first ms a t random past (quiet_without ms free v.settled) v))

-- The response that is accepted carries the bytes of the challenge.
accepted-IsValidated :
    (ms : MigrationState) (bytes : List ℕ) (past : List Event)
    → HasIssued past ms.new_path
    → ms.new_path.challenge_pending ≡ true
    → same_bytes bytes ms.new_path.challenge_data ≡ true
    → IsValidated ms.new_path.addr (Event.responded bytes ∷ past)
accepted-IsValidated ms bytes past (inl quiet) h same = absurd (ground (arith, quiet, h))
accepted-IsValidated ms bytes past (inr made) h same = (
  ms.new_path.challenge_data,
  ms.new_path.challenge_sent_time,
  inr made,
  inl (
      ap (λ (l : List ℕ). Event.responded l)
        (sym (same_bytes→≡ bytes ms.new_path.challenge_data same))),
)

response-IsHonest :
    (first : Addr) (ms : MigrationState) (bytes : List ℕ) (past : List Event)
    → IsHonest first past ms
    → IsHonest first (Event.responded bytes ∷ past) (on_path_response ms bytes).0
unfolding on_path_response no_path
response-IsHonest first ms bytes past v =
    let e = Event.responded bytes in
    if-elim (λ (x : MigrationState × Bool). IsHonest first (e ∷ past) x.0)
      (not ms.new_path.challenge_pending) _ _ (λ quiet. later first ms ms e past refl refl refl v)
      (λ pending.
        if-elim (λ (x : MigrationState × Bool). IsHonest first (e ∷ past) x.0)
          (not (same_bytes bytes ms.new_path.challenge_data)) _ _
          (λ other. later first ms ms e past refl refl refl v)
          (λ same. record {
            issued = inl refl;
            trusted = inr (
                accepted-IsValidated ms bytes past v.issued (not-false _ pending)
                  (not-false _ same));
            settled = inr refl;
          }))

timeout-IsHonest :
    (first : Addr) (ms : MigrationState) (now_us pto_us : ℕ) (past : List Event)
    → IsHonest first past ms
    → IsHonest first (Event.timer_fired now_us pto_us ∷ past) (check_timeout ms now_us pto_us).0
unfolding check_timeout no_path
timeout-IsHonest first ms now_us pto_us past v =
    let e = Event.timer_fired now_us pto_us in
    if-elim (λ (x : MigrationState × Bool). IsHonest first (e ∷ past) x.0)
      (not ms.new_path.challenge_pending) _ _ (λ quiet. later first ms ms e past refl refl refl v)
      (λ pending.
        if-elim (λ (x : MigrationState × Bool). IsHonest first (e ∷ past) x.0)
          (leb (add64 ms.new_path.challenge_sent_time (mul64 pto_us path_validation_timeout_factor))
            now_us)
          (record ms { new_path = no_path; migration_in_progress = false }, true) (ms, false)
          (λ late. record {
            issued = inl refl;
            trusted = trust_kept first e past ms.current_path v.trusted;
            settled = inr refl;
          })
          (λ early. later first ms ms e past refl refl refl v))

handle-IsHonest :
    (first : Addr) (ms : MigrationState) (e : Event) (past : List Event)
    → IsHonest first past ms
    → IsHonest first (e ∷ past) (handle ms e)
unfolding handle on_path_challenge on_retire_connection_id generate_cids
handle-IsHonest first ms (Event.addr_changed a t random) past v =
    change-IsHonest first ms a t random past v
handle-IsHonest first ms (Event.challenged bytes) past v =
    later first ms (on_path_challenge ms bytes) (Event.challenged bytes) past refl refl refl v
handle-IsHonest first ms (Event.responded bytes) past v = response-IsHonest first ms bytes past v
handle-IsHonest first ms (Event.cid_offered cid seq_num retire_prior_to token) past v =
    let (p, q, r) = new_cid-Keeps ms cid seq_num retire_prior_to token in
    later first ms _ (Event.cid_offered cid seq_num retire_prior_to token) past p q r v
handle-IsHonest first ms (Event.cid_retired seq_num) past v =
    later first ms ms (Event.cid_retired seq_num) past refl refl refl v
handle-IsHonest first ms (Event.cid_used seq_num) past v =
    let (p, q, r) = use_cid-Keeps ms seq_num in
    later first ms _ (Event.cid_used seq_num) past p q r v
handle-IsHonest first ms (Event.cids_generated base_scid draw) past v =
    let (p, q, r) = generate_from-paths (turns ms) ms base_scid draw in
    later first ms _ (Event.cids_generated base_scid draw) past p q r v
handle-IsHonest first ms (Event.timer_fired now_us pto_us) past v =
    timeout-IsHonest first ms now_us pto_us past v

after-IsHonest :
    (ms : MigrationState) (past : List Event)
    → ms.new_path.challenge_pending ≡ false
    → IsHonest ms.current_path.addr past (after ms past)
unfolding after
after-IsHonest ms [] quiet = record { issued = inl quiet; trusted = inl refl; settled = inr quiet }
after-IsHonest ms (e ∷ past) quiet =
    handle-IsHonest ms.current_path.addr (after ms past) e past (after-IsHonest ms past quiet)

-- Whatever happens to a connection that has no challenge out: its current address is the first one, or
-- one for which a challenge was made and the same bytes came back.
pub current_path-IsValidated :
    (ms : MigrationState) (past : List Event)
    → ms.new_path.challenge_pending ≡ false
    → ((after ms past).current_path.addr ≡ ms.current_path.addr)
      ⊎ IsValidated (after ms past).current_path.addr past
current_path-IsValidated ms past quiet = (after-IsHonest ms past quiet).trusted
