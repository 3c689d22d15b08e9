-- ===== src/Ack/Sent/Lost.antt =====
-- Which packets an ACK frame and the loss timer take away, and which ones they keep.
use nxp.Prelude.{
  ℕ, ◌≤◌, ◌<◌, ◌≡◌, refl, ap, ◌∙◌, arith, List, [], ◌∷◌, ◌⊎◌, none, Bool, true, false, not, ◌&&◌,
  ◌||◌, ltb, leb, All, Any, filter, map, Bool-cases, inl, inr,
}
use nxp.Prelude.Word.{u64_max, add64}
use nxp.Frame.Types.{AckFrame}
use nxp.Ack.Types.{AckState, SentPkt, u64_smaller}
use nxp.Ack.Build.{is_acked}
use nxp.Ack.Sent.{
  Walk, Fate, skipped, newer, lost, waiting, judge, bytes_after, deadline_after, place, walk_lost,
  landed, loss_delay, is_lost, detect_lost_packets, walk_acked, apply_sample, rtt_sample,
  on_ack_recv,
}
use nxp.Ack.Sent.Tracked.{apply_sample-sent}

-- The packets that an acknowledgement up to `largest` finds lost, and those that are kept: newer than that, or
-- not lost yet. What is marked as lost already is neither.
abbrev pub is_found_lost : ℕ → ℕ → ℕ → SentPkt → Bool
is_found_lost delay now_us largest pkt =
    not pkt.declared_lost && (leb pkt.pkt_num largest && is_lost delay now_us largest pkt)

abbrev pub is_kept : ℕ → ℕ → ℕ → SentPkt → Bool
is_kept delay now_us largest pkt =
    not pkt.declared_lost && (ltb largest pkt.pkt_num || not (is_lost delay now_us largest pkt))

abbrev pub declare : SentPkt → SentPkt
declare pkt = record pkt { declared_lost = true }

-- The timer is set no later than the time at which a packet is lost, unless it is newer than `largest`.
abbrev pub IsCovered : ℕ → ℕ → ℕ → SentPkt → Type 0
IsCovered delay largest deadline pkt =
    (largest < pkt.pkt_num) ⊎ (deadline ≤ add64 pkt.sent_time delay)

-- The timer is set to the time at which the packet is lost.
abbrev pub IsDue : ℕ → ℕ → ℕ → SentPkt → Type 0
IsDue delay largest deadline pkt = (pkt.pkt_num ≤ largest) × (deadline ≡ add64 pkt.sent_time delay)

deadline_after_lem :
    (fate : Fate) (delay now_us largest deadline : ℕ) (pkt : SentPkt)
    → judge delay now_us largest pkt ≡ fate
    → now_us < deadline
    → let next = deadline_after fate (add64 pkt.sent_time delay) deadline in
      (next ≤ deadline) × (now_us < next)
unfolding deadline_after judge u64_smaller is_lost
deadline_after_lem skipped delay now_us largest deadline pkt e h = (omega arith, h)
deadline_after_lem newer delay now_us largest deadline pkt e h = (omega arith, h)
deadline_after_lem lost delay now_us largest deadline pkt e h = (omega arith, h)
deadline_after_lem waiting delay now_us largest deadline pkt e h = ground (arith, e, h)

place-deadline :
    (fate : Fate) (pkt : SentPkt) (more : Walk) → (place fate pkt more).deadline ≡ more.deadline
unfolding place
place-deadline skipped pkt more = refl
place-deadline newer pkt more = refl
place-deadline lost pkt more = refl
place-deadline waiting pkt more = refl

walk_lost-deadline :
    (delay now_us largest bytes deadline : ℕ) (sent : List SentPkt)
    → now_us < deadline
    → let walk = walk_lost delay now_us largest bytes deadline sent in
      (walk.deadline ≤ deadline) × (now_us < walk.deadline)
unfolding walk_lost
walk_lost-deadline delay now_us largest bytes deadline [] h = (omega arith, h)
walk_lost-deadline delay now_us largest bytes deadline (pkt ∷ rest) h =
    let fate = judge delay now_us largest pkt in
    let bytes' = bytes_after fate pkt bytes in
    let next = deadline_after fate (add64 pkt.sent_time delay) deadline in
    let step = deadline_after_lem fate delay now_us largest deadline pkt refl h in
    let ih = walk_lost-deadline delay now_us largest bytes' next rest step.1 in
    let same = place-deadline fate pkt (walk_lost delay now_us largest bytes' next rest) in
    omega (arith, step, ih, same)

smaller-cases : (a b : ℕ) → (u64_smaller a b ≡ a) ⊎ (u64_smaller a b ≡ b)
unfolding u64_smaller
smaller-cases a b = ground arith

-- The lists of a walk, and what its deadline is for those it keeps.
abbrev IsSplit : ℕ → ℕ → ℕ → ℕ → List SentPkt → Walk → Type 0
IsSplit delay now_us largest deadline sent walk =
    (walk.kept ≡ filter (is_kept delay now_us largest) sent)
    × (walk.reported ≡ map declare (filter (is_found_lost delay now_us largest) sent))
    × All (IsCovered delay largest walk.deadline) walk.kept
    × ((walk.deadline ≡ deadline) ⊎ Any (IsDue delay largest walk.deadline) walk.kept)

place-IsSplit :
    (fate : Fate) (delay now_us largest deadline : ℕ) (pkt : SentPkt) (rest : List SentPkt)
    (more : Walk)
    → judge delay now_us largest pkt ≡ fate
    → more.deadline ≤ deadline_after fate (add64 pkt.sent_time delay) deadline
    → IsSplit delay now_us largest
        (deadline_after fate (add64 pkt.sent_time delay) deadline)
        rest
        more
    → IsSplit delay now_us largest deadline (pkt ∷ rest) (place fate pkt more)
unfolding place judge deadline_after u64_smaller
place-IsSplit skipped delay now_us largest deadline pkt rest more e h (k, r, t, d) =
    let kept : is_kept delay now_us largest pkt ≡ false = ground (arith, e) in
    let gone : is_found_lost delay now_us largest pkt ≡ false = ground (arith, e) in
    (rw kept k, rw gone r, t, d)
place-IsSplit newer delay now_us largest deadline pkt rest more e h (k, r, t, d) =
    let kept : is_kept delay now_us largest pkt ≡ true = ground (arith, e) in
    let gone : is_found_lost delay now_us largest pkt ≡ false = ground (arith, e) in
    (rw kept (ap (pkt ∷◌) k), rw gone r, (ground (arith, e), t), later d)
  where
    later :
        (more.deadline ≡ deadline) ⊎ Any (IsDue delay largest more.deadline) more.kept
        → (more.deadline ≡ deadline)
          ⊎ (IsDue delay largest more.deadline pkt
              ⊎ Any (IsDue delay largest more.deadline) more.kept)
    later (inl same) = inl same
    later (inr due) = inr (inr due)
place-IsSplit lost delay now_us largest deadline pkt rest more e h (k, r, t, d) =
    let kept : is_kept delay now_us largest pkt ≡ false = ground (arith, e) in
    let gone : is_found_lost delay now_us largest pkt ≡ true = ground (arith, e) in
    (rw kept k, rw gone (ap (declare pkt ∷◌) r), t, d)
place-IsSplit waiting delay now_us largest deadline pkt rest more e h (k, r, t, d) =
    let kept : is_kept delay now_us largest pkt ≡ true = ground (arith, e) in
    let gone : is_found_lost delay now_us largest pkt ≡ false = ground (arith, e) in
    (rw kept (ap (pkt ∷◌) k), rw gone r, (ground (arith, h), t), first d)
  where
    first :
        (more.deadline ≡ u64_smaller deadline (add64 pkt.sent_time delay))
          ⊎ Any (IsDue delay largest more.deadline) more.kept
        → (more.deadline ≡ deadline)
          ⊎ (IsDue delay largest more.deadline pkt
              ⊎ Any (IsDue delay largest more.deadline) more.kept)
    first (inl same) = elim (smaller-cases deadline (add64 pkt.sent_time delay)) [
      | inl before ↦ inl (same ∙ before)
      | inr here ↦ inr (inl (ground (arith, e), same ∙ here))
    ]
    first (inr due) = inr (inr due)

walk_lost-IsSplit :
    (delay now_us largest bytes deadline : ℕ) (sent : List SentPkt)
    → now_us < deadline
    → IsSplit delay now_us largest deadline sent
        (walk_lost delay now_us largest bytes deadline sent)
unfolding walk_lost
walk_lost-IsSplit delay now_us largest bytes deadline [] h = (refl, refl, tt, inl refl)
walk_lost-IsSplit delay now_us largest bytes deadline (pkt ∷ rest) h =
    let fate = judge delay now_us largest pkt in
    let bytes' = bytes_after fate pkt bytes in
    let next = deadline_after fate (add64 pkt.sent_time delay) deadline in
    let step = deadline_after_lem fate delay now_us largest deadline pkt refl h in
    place-IsSplit fate delay now_us largest deadline pkt rest
      (walk_lost delay now_us largest bytes' next rest) refl
      (walk_lost-deadline delay now_us largest bytes' next rest step.1).0
      (walk_lost-IsSplit delay now_us largest bytes' next rest step.1)

abbrev pub is_unanswered : AckFrame → SentPkt → Bool
is_unanswered frame pkt = not (is_acked frame pkt.pkt_num)

walk_acked-filter :
    (frame : AckFrame) (bytes : ℕ) (sent : List SentPkt)
    → let walk = walk_acked frame bytes sent in
      (walk.kept ≡ filter (is_unanswered frame) sent)
      × (walk.reported ≡ filter (λ pkt. is_acked frame pkt.pkt_num) sent)
unfolding walk_acked
walk_acked-filter frame bytes [] = (refl, refl)
walk_acked-filter frame bytes (pkt ∷ rest) = elim (Bool-cases (is_acked frame pkt.pkt_num)) [
  | inl hit ↦
      let (k, r) = walk_acked-filter frame (landed pkt bytes) rest in rw hit (k, ap (pkt ∷◌) r)
  | inr other ↦ let (k, r) = walk_acked-filter frame bytes rest in rw other (ap (pkt ∷◌) k, r)
]

-- While the clock is below 2^64 - 1, processing an ACK frame hands to the one callback exactly the packets
-- that the frame acknowledges. Of those it leaves out, it hands to the other, marked as lost, exactly those that
-- were not marked before, are not newer than the largest it acknowledges, and are lost by number or by time;
-- and it keeps exactly those not marked that are newer, or not lost. All three are in their order. The loss
-- timer is set to the earliest time at which one of those kept that are not newer is lost, which is later
-- than the present, or to 2^64 - 1 if there is none. Sums of times are modulo 2^64.
pub on_ack_recv_lem :
    (ack : AckState) (frame : AckFrame) (now_us : ℕ)
    → now_us < u64_max
    → let out = on_ack_recv ack frame now_us in
      let delay = loss_delay out.ack in
      let largest = frame.largest_acked in
      let left = filter (is_unanswered frame) ack.sent in
      let timer = out.ack.loss_time in
      (out.acked ≡ filter (λ pkt. is_acked frame pkt.pkt_num) ack.sent)
      × (out.lost ≡ map declare (filter (is_found_lost delay now_us largest) left))
      × (out.ack.sent ≡ filter (is_kept delay now_us largest) left)
      × All (IsCovered delay largest timer) out.ack.sent
      × ((timer ≡ u64_max) ⊎ Any (IsDue delay largest timer) out.ack.sent)
      × (now_us < timer)
unfolding on_ack_recv detect_lost_packets loss_delay
on_ack_recv_lem ack frame now_us h =
    let walk = walk_acked frame ack.bytes_in_flight ack.sent in
    let rest = record ack { sent = walk.kept; bytes_in_flight = walk.bytes } in
    let sample = rtt_sample frame.largest_acked now_us walk.reported none in
    let timed = record (apply_sample rest frame.ack_delay sample) { pto_count = 0 } in
    let delay = loss_delay timed in
    let largest = frame.largest_acked in
    let answered = walk_acked-filter frame ack.bytes_in_flight ack.sent in
    let left : timed.sent ≡ filter (is_unanswered frame) ack.sent =
      apply_sample-sent rest frame.ack_delay sample ∙ answered.0 in
    let split = walk_lost-IsSplit delay now_us largest timed.bytes_in_flight u64_max timed.sent h in
    let later =
      walk_lost-deadline delay now_us largest timed.bytes_in_flight u64_max timed.sent h in
    (
      answered.1,
      split.1 ∙ ap (λ sent. map declare (filter (is_found_lost delay now_us largest) sent)) left,
      split.0 ∙ ap (filter (is_kept delay now_us largest)) left,
      split.2,
      split.3,
      later.1,
    )
