-- ===== src/Bbr/Probe.antt =====
-- How long PROBE_RTT lasts, from the acknowledgement that enters it.
use nxp.Prelude.{
  ℕ, ◌≡◌, refl, sym, ap, ◌∙◌, subst, arith, List, [], ◌∷◌, Option, none, some, Bool, true, false,
  ◌&&◌, leb, inl, inr, if◌then◌else◌, Bool-cases,
}
use nxp.Prelude.Word.{sub64}
use nxp.Bbr.{
  Bbr, BbrState, AckInfo, is_probe_rtt, probe_rtt_duration_us, update_round, update_bandwidth,
  update_rt_prop, update_model, check_startup_done, check_drain_done, update_probe_bw,
  enter_probe_rtt, reduce_cwnd, mark_probe_start, restored, leave_probe_rtt, end_probe,
  hold_probe_rtt, check_probe_rtt, update_control, run_machine, enter_drain, count_plateau, on_ack,
}

abbrev pub is_low : AckInfo → Bool
is_low info = leb info.bytes_in_flight 4800

-- The time of the first acknowledgement of the probe that finds four packets or less in flight.
abbrev pub first_low : Option ℕ → AckInfo → Option ℕ
first_low none info = if is_low info then some info.now_us else none
first_low (some t) info = some t

abbrev pub first_low_of : Option ℕ → List AckInfo → Option ℕ
first_low_of t [] = t
first_low_of t (info ∷ rest) = first_low_of (first_low t info) rest

-- Whether an acknowledgement is to end the probe, by that time.
abbrev pub is_over : Option ℕ → AckInfo → Bool
is_over none info = false
is_over (some t) info = is_low info && leb probe_rtt_duration_us (sub64 info.now_us t)

-- None of the acknowledgements ends the probe.
abbrev pub IsOpen : Option ℕ → List AckInfo → Type 0
IsOpen t [] = Unit {0}
IsOpen t (info ∷ rest) = (is_over t info ≡ false) × IsOpen (first_low t info) rest

pub ack_all : Bbr → List AckInfo → Bbr
ack_all b [] = b
ack_all b (info ∷ rest) = ack_all (on_ack b info) rest

abbrev pub after_probe : Bool → BbrState
after_probe filled_pipe = if filled_pipe then BbrState.probe_bw else BbrState.startup

-- In PROBE_RTT with the mark that the controller keeps of that time.
abbrev IsMarked : Bbr → Bool → Option ℕ → Type 0
IsMarked b filled none =
    (b.state ≡ BbrState.probe_rtt) × (b.filled_pipe ≡ filled) × (b.probe_rtt_done ≡ false)
IsMarked b filled (some t) =
    (b.state ≡ BbrState.probe_rtt)
    × (b.filled_pipe ≡ filled)
    × (b.probe_rtt_done ≡ true)
    × (b.probe_rtt_done_stamp ≡ t)

-- What an acknowledgement makes of a controller in PROBE_RTT.
abbrev IsHeld : Bool → Option ℕ → AckInfo → Bbr → Type 0
IsHeld filled t info c =
    (is_over t info ≡ true → c.state ≡ after_probe filled)
    × (is_over t info ≡ false → IsMarked c filled (first_low t info))

hold-IsHeld :
    (c : Bbr) (filled : Bool) (t : Option ℕ) (info : AckInfo)
    → c.bytes_in_flight ≡ info.bytes_in_flight
    → IsMarked c filled t
    → IsHeld filled t info (hold_probe_rtt c info.now_us)
unfolding hold_probe_rtt end_probe mark_probe_start reduce_cwnd leave_probe_rtt restored
hold-IsHeld c filled none info same (h0, h1, h2) = (
  λ e. absurd (ground (arith, e)),
  λ e. elim (Bool-cases (is_low info)) [
    | inl low ↦ rw low (ground (arith, low, same, h0, h1, h2))
    | inr high ↦ rw high (ground (arith, high, same, h0, h1, h2))
  ],
)
hold-IsHeld c filled (some t) info same (h0, h1, h2, h3) =
    (λ e. ground (arith, e, same, h0, h1, h2, h3), λ e. ground (arith, e, same, h0, h1, h2, h3))

-- What an acknowledgement passes by before the last check.
abbrev passed : Bbr → AckInfo → Bbr
passed b info =
    update_probe_bw
      (check_drain_done (
        check_startup_done
          (update_model (record b { bytes_in_flight = info.bytes_in_flight }) info)))
      info.now_us

-- What the checks keep in PROBE_RTT.
IsPassed : Bbr → AckInfo → Bbr → Type 0
IsPassed b info c =
    (c.state ≡ BbrState.probe_rtt)
    × (c.bytes_in_flight ≡ info.bytes_in_flight)
    × (c.probe_rtt_done ≡ b.probe_rtt_done)
    × (c.probe_rtt_done_stamp ≡ b.probe_rtt_done_stamp)
    × (c.filled_pipe ≡ b.filled_pipe)

update_model-IsPassed :
    (b : Bbr) (info : AckInfo)
    → b.state ≡ BbrState.probe_rtt
    → IsPassed b info (update_model (record b { bytes_in_flight = info.bytes_in_flight }) info)
unfolding IsPassed update_model update_rt_prop update_bandwidth update_round
update_model-IsPassed b info e = ground (arith, e)

checks-IsPassed :
    (b c : Bbr) (info : AckInfo)
    → IsPassed b info c
    → IsPassed b info
        (enter_probe_rtt (update_probe_bw (check_drain_done (check_startup_done c)) info.now_us))
unfolding IsPassed check_startup_done check_drain_done update_probe_bw enter_probe_rtt
checks-IsPassed b c info h = rw (h.0) (ground (arith, h))

IsMarked-IsPassed :
    (b c : Bbr) (filled : Bool) (t : Option ℕ) (info : AckInfo)
    → IsMarked b filled t
    → IsPassed b info c
    → IsMarked c filled t
unfolding IsPassed
IsMarked-IsPassed b c filled none info (h0, h1, h2) (k0, k1, k2, k3, k4) = (k0, k4 ∙ h1, k2 ∙ h2)
IsMarked-IsPassed b c filled (some t) info (h0, h1, h2, h3) (k0, k1, k2, k3, k4) =
    (k0, k4 ∙ h1, k2 ∙ h2, k3 ∙ h3)

-- The last check, once the state is PROBE_RTT.
check-IsHeld :
    (c : Bbr) (filled : Bool) (t : Option ℕ) (info : AckInfo)
    → (enter_probe_rtt c).bytes_in_flight ≡ info.bytes_in_flight
    → (enter_probe_rtt c).state ≡ BbrState.probe_rtt
    → IsMarked (enter_probe_rtt c) filled t
    → IsHeld filled t info (check_probe_rtt c info.now_us)
unfolding check_probe_rtt
check-IsHeld c filled t info same inside h =
    let yes : is_probe_rtt (enter_probe_rtt c).state ≡ true = ap is_probe_rtt inside in
    rw yes (hold-IsHeld (enter_probe_rtt c) filled t info same h)

controlled-IsHeld :
    (c : Bbr) (filled : Bool) (t : Option ℕ) (info : AckInfo)
    → IsHeld filled t info c
    → IsHeld filled t info (update_control c)
controlled-IsHeld c filled t info h = (λ e. moved_state e, λ e. moved (first_low t info) (h.1 e))
  where
    moved_state : is_over t info ≡ true → (update_control c).state ≡ after_probe filled
    moved_state e = unfold update_control in h.0 e

    moved : (u : Option ℕ) → IsMarked c filled u → IsMarked (update_control c) filled u
    moved none k = unfold update_control in k
    moved (some u) k = unfold update_control in k

marked_state :
    (b : Bbr) (filled : Bool) (t : Option ℕ)
    → IsMarked b filled t
    → (b.state ≡ BbrState.probe_rtt) × (b.filled_pipe ≡ filled)
marked_state b filled none h = (h.0, h.1)
marked_state b filled (some t) h = (h.0, h.1)

on_ack-IsHeld :
    (b : Bbr) (filled : Bool) (t : Option ℕ) (info : AckInfo)
    → IsMarked b filled t
    → IsHeld filled t info (on_ack b info)
unfolding on_ack run_machine IsPassed
on_ack-IsHeld b filled t info h =
    let model = update_model (record b { bytes_in_flight = info.bytes_in_flight }) info in
    let in_probe = update_model-IsPassed b info (marked_state b filled t h).0 in
    let still = checks-IsPassed b model info in_probe in
    controlled-IsHeld (check_probe_rtt (passed b info) info.now_us) filled t info (
      check-IsHeld (passed b info) filled t info still.1 still.0
        (IsMarked-IsPassed b (enter_probe_rtt (passed b info)) filled t info h still))

-- Outside PROBE_RTT nothing but the last check enters it.
abbrev IsOutside : AckInfo → Bbr → Type 0
IsOutside info c = (is_probe_rtt c.state ≡ false) × (c.bytes_in_flight ≡ info.bytes_in_flight)

module _ (info : AckInfo) (c : Bbr) (h : IsOutside info c) where
  update_model-IsOutside : IsOutside info (update_model c info)
  unfolding update_model update_rt_prop update_bandwidth update_round
  update_model-IsOutside = ground (arith, h)

  check_startup_done-IsOutside : IsOutside info (check_startup_done c)
  unfolding check_startup_done count_plateau enter_drain
  check_startup_done-IsOutside = ground (arith, h)

  check_drain_done-IsOutside : IsOutside info (check_drain_done c)
  unfolding check_drain_done
  check_drain_done-IsOutside = ground (arith, h)

  update_probe_bw-IsOutside : IsOutside info (update_probe_bw c info.now_us)
  unfolding update_probe_bw
  update_probe_bw-IsOutside = ground (arith, h)

passed-IsOutside :
    (b : Bbr) (info : AckInfo) → is_probe_rtt b.state ≡ false → IsOutside info (passed b info)
passed-IsOutside b info h = update_probe_bw-IsOutside info _ (
    check_drain_done-IsOutside info _ (
      check_startup_done-IsOutside info _ (
        update_model-IsOutside info (record b { bytes_in_flight = info.bytes_in_flight })
          (h, refl))))

-- The acknowledgement that enters PROBE_RTT clears the mark of the probe before.
entered-IsMarked :
    (c : Bbr)
    → is_probe_rtt c.state ≡ false
    → is_probe_rtt (enter_probe_rtt c).state ≡ true
    → ((enter_probe_rtt c).bytes_in_flight ≡ c.bytes_in_flight)
      × IsMarked (enter_probe_rtt c) c.filled_pipe none
unfolding enter_probe_rtt
entered-IsMarked c outside inside = ground (arith, outside, inside)

entry-IsMarked :
    (b : Bbr) (info : AckInfo)
    → is_probe_rtt b.state ≡ false
    → is_probe_rtt (on_ack b info).state ≡ true
    → IsMarked (on_ack b info) (on_ack b info).filled_pipe (first_low none info)
unfolding on_ack run_machine check_probe_rtt update_control
entry-IsMarked b info outside inside =
    let (before, same) = passed-IsOutside b info outside in
    elim (Bool-cases (is_probe_rtt (enter_probe_rtt (passed b info)).state)) [
      | inl enters ↦
          let (flight, k) = entered-IsMarked (passed b info) before enters in
          let filled = (passed b info).filled_pipe in
          let held = check-IsHeld (passed b info) filled none info (flight ∙ same) (k.0) k in
          let marked =
            (controlled-IsHeld (check_probe_rtt (passed b info) info.now_us) filled none info
                held).1
              refl in
          subst (λ full. IsMarked (on_ack b info) full (first_low none info))
            (sym (marked_state (on_ack b info) filled (first_low none info) marked).1) marked
      | inr stays ↦ absurd (ground (arith, stays, inside))
    ]

ack_all-IsMarked :
    (b : Bbr) (filled : Bool) (t : Option ℕ) (acks : List AckInfo)
    → IsMarked b filled t
    → IsOpen t acks
    → IsMarked (ack_all b acks) filled (first_low_of t acks)
unfolding ack_all
ack_all-IsMarked b filled t [] h pending = h
ack_all-IsMarked b filled t (info ∷ rest) h (not_yet, pending) =
    ack_all-IsMarked (on_ack b info) filled (first_low t info) rest
      ((on_ack-IsHeld b filled t info h).1 not_yet) pending

ends_or_not :
    (b : Bbr) (filled : Bool) (t : Option ℕ) (last : AckInfo)
    → IsMarked b filled t
    → (on_ack b last).state ≡ (if is_over t last then after_probe filled else BbrState.probe_rtt)
ends_or_not b filled t last h = elim (Bool-cases (is_over t last)) [
  | inl over ↦ rw over ((on_ack-IsHeld b filled t last h).0 over)
  | inr pending ↦
      rw pending
        (marked_state (on_ack b last) filled (first_low t last)
          ((on_ack-IsHeld b filled t last h).1 pending)).0
]

-- From the acknowledgement that enters PROBE_RTT on, as long as none has ended it: the state is PROBE_RTT; and
-- the next acknowledgement ends it exactly if it finds four packets or less in flight, 200 ms or more after
-- the first acknowledgement of this probe that did. Then a full pipe goes on in PROBE_BW, and one that is not
-- known to be full in STARTUP. Differences of times are modulo 2^64.
pub ack_all-probe_rtt :
    (b : Bbr) (entry last : AckInfo) (acks : List AckInfo)
    → is_probe_rtt b.state ≡ false
    → is_probe_rtt (on_ack b entry).state ≡ true
    → IsOpen none (entry ∷ acks)
    → let held = ack_all (on_ack b entry) acks in
      (held.state ≡ BbrState.probe_rtt)
      × ((on_ack held last).state ≡ (
          if is_over (first_low_of none (entry ∷ acks)) last
          then after_probe (on_ack b entry).filled_pipe
          else BbrState.probe_rtt))
ack_all-probe_rtt b entry last acks outside inside pending =
    let filled = (on_ack b entry).filled_pipe in
    let t = first_low none entry in
    let held = ack_all (on_ack b entry) acks in
    let marked =
      ack_all-IsMarked (on_ack b entry) filled t acks (entry-IsMarked b entry outside inside)
        pending.1 in
    (
      (marked_state held filled (first_low_of t acks) marked).0,
      ends_or_not held filled (first_low_of t acks) last marked,
    )
