-- ===== src/Ack/Sent/Tracked.antt =====
-- Accounting: what is in flight, and where each sent packet goes.
use nxp.Prelude.{
  ℕ, ◌+◌, ◌<◌, ◌≡◌, refl, ap, arith, ◌≢◌, List, [], ◌∷◌, ◌++◌, Option, none, some, Bool, false,
  ◌==◌, if◌then◌else◌, All, All-append, Bool-cases, inl, inr,
}
use nxp.Prelude.Word.{u64_mod, u64_max, add64}
use nxp.Frame.Types.{AckFrame}
use nxp.Ack.Types.{AckState, SentPkt}
use nxp.Ack.Build.{is_acked}
use nxp.Ack.Rtt.{update_rtt}
use nxp.Ack.Sent.{
  on_pkt_sent, landed, Walk, Fate, skipped, newer, lost, waiting, judge, bytes_after,
  deadline_after, place, walk_lost, detect_lost_packets, walk_acked, rtt_sample, apply_sample,
  on_ack_recv, on_loss_timeout, loss_delay, largest_sent,
}

-- The bytes of the packets that are in flight.
abbrev pub flight_bytes : List SentPkt → ℕ
flight_bytes [] = 0
flight_bytes (pkt ∷ rest) = (if pkt.in_flight then pkt.sent_bytes else 0) + flight_bytes rest

abbrev pub NotLost : SentPkt → Type 0
NotLost pkt = pkt.declared_lost ≡ false

-- `bytes_in_flight` is the sum over the packets held, none of which is declared lost.
abbrev pub IsTracked : AckState → Type 0
IsTracked ack = (ack.bytes_in_flight ≡ flight_bytes ack.sent) × All NotLost ack.sent

pub judge-NotLost :
    (delay now_us largest : ℕ) (pkt : SentPkt)
    → NotLost pkt
    → judge delay now_us largest pkt ≢ skipped
unfolding judge
judge-NotLost delay now_us largest pkt h = ground (arith, h)

-- What a packet that is not skipped counts for in what is kept.
kept_bytes : Fate → SentPkt → ℕ
kept_bytes lost pkt = 0
kept_bytes skipped pkt = if pkt.in_flight then pkt.sent_bytes else 0
kept_bytes newer pkt = if pkt.in_flight then pkt.sent_bytes else 0
kept_bytes waiting pkt = if pkt.in_flight then pkt.sent_bytes else 0

bytes_after_lem :
    (fate : Fate) (pkt : SentPkt) (extra rest bytes : ℕ)
    → bytes ≡ extra + ((if pkt.in_flight then pkt.sent_bytes else 0) + rest)
    → bytes_after fate pkt bytes ≡ (extra + kept_bytes fate pkt) + rest
unfolding bytes_after landed kept_bytes
bytes_after_lem skipped pkt extra rest bytes h = omega arith
bytes_after_lem newer pkt extra rest bytes h = omega arith
bytes_after_lem lost pkt extra rest bytes h = ground (arith, h)
bytes_after_lem waiting pkt extra rest bytes h = omega arith

place-flight :
    (fate : Fate) (pkt : SentPkt) (extra : ℕ) (more : Walk)
    → fate ≢ skipped
    → NotLost pkt
    → more.bytes ≡ extra + kept_bytes fate pkt + flight_bytes more.kept
    → All NotLost more.kept
    → let walk = place fate pkt more in
      (walk.bytes ≡ extra + flight_bytes walk.kept) × All NotLost walk.kept
unfolding place kept_bytes
place-flight skipped pkt extra more f n h a = absurd (f refl)
place-flight newer pkt extra more f n h a = (omega arith, (n, a))
place-flight lost pkt extra more f n h a = (omega arith, a)
place-flight waiting pkt extra more f n h a = (omega arith, (n, a))

walk_lost-flight :
    (delay now_us largest extra bytes deadline : ℕ) (sent : List SentPkt)
    → bytes ≡ extra + flight_bytes sent
    → All NotLost sent
    → let walk = walk_lost delay now_us largest bytes deadline sent in
      (walk.bytes ≡ extra + flight_bytes walk.kept) × All NotLost walk.kept
unfolding walk_lost
walk_lost-flight delay now_us largest extra bytes deadline [] h nl = (h, tt)
walk_lost-flight delay now_us largest extra bytes deadline (pkt ∷ rest) h nl =
    let fate = judge delay now_us largest pkt in
    let ih =
      walk_lost-flight delay now_us largest (extra + kept_bytes fate pkt)
        (bytes_after fate pkt bytes) _ rest
        (bytes_after_lem fate pkt extra (flight_bytes rest) bytes h) nl.1 in
    place-flight fate pkt extra _ (judge-NotLost delay now_us largest pkt nl.0) nl.0 ih.0 ih.1

walk_acked-flight :
    (frame : AckFrame) (extra bytes : ℕ) (sent : List SentPkt)
    → bytes ≡ extra + flight_bytes sent
    → All NotLost sent
    → let walk = walk_acked frame bytes sent in
      (walk.bytes ≡ extra + flight_bytes walk.kept) × All NotLost walk.kept
unfolding walk_acked landed
walk_acked-flight frame extra bytes [] h nl = (h, tt)
walk_acked-flight frame extra bytes (pkt ∷ rest) h nl =
    elim (Bool-cases (is_acked frame pkt.pkt_num)) [
      | inl hit ↦
          let ih =
            walk_acked-flight frame extra (landed pkt bytes) rest
              (unfold landed in ground (arith, h)) nl.1 in
          ground (arith, hit, ih)
      | inr other ↦
          let own = if pkt.in_flight then pkt.sent_bytes else 0 in
          let ih = walk_acked-flight frame (extra + own) bytes rest (omega arith) nl.1 in
          ground (arith, other, ih, nl)
    ]

detect_lost_packets-IsTracked :
    (ack : AckState) (now_us largest : ℕ)
    → IsTracked ack
    → IsTracked (detect_lost_packets ack now_us largest).0
unfolding detect_lost_packets
detect_lost_packets-IsTracked ack now_us largest h =
    let walked =
      walk_lost-flight (loss_delay ack) now_us largest 0 ack.bytes_in_flight u64_max ack.sent
        (omega arith) h.1 in
    (omega (arith, walked.0), walked.1)

apply_sample-IsTracked :
    (ack : AckState) (delay : ℕ) (sample : Option ℕ)
    → IsTracked ack
    → IsTracked (apply_sample ack delay sample)
unfolding apply_sample update_rtt
apply_sample-IsTracked ack delay none h = h
apply_sample-IsTracked ack delay (some s) h = ground (arith, h)

flight_bytes-append :
    (xs ys : List SentPkt) → flight_bytes (xs ++ ys) ≡ flight_bytes xs + flight_bytes ys
flight_bytes-append [] ys = omega arith
flight_bytes-append (x ∷ xs) ys = omega (arith, flight_bytes-append xs ys)

-- How often a packet number occurs.
abbrev pub count : ℕ → List SentPkt → ℕ
count pn [] = 0
count pn (pkt ∷ rest) = (if pkt.pkt_num == pn then 1 else 0) + count pn rest

place-count :
    (fate : Fate) (pkt : SentPkt) (more : Walk) (pn : ℕ)
    → fate ≢ skipped
    → let walk = place fate pkt more in
      count pn walk.kept + count pn walk.reported
      ≡ (if pkt.pkt_num == pn then 1 else 0) + (count pn more.kept + count pn more.reported)
unfolding place
place-count skipped pkt more pn f = absurd (f refl)
place-count newer pkt more pn f = omega arith
place-count lost pkt more pn f = omega arith
place-count waiting pkt more pn f = omega arith

walk_lost-count :
    (delay now_us largest bytes deadline pn : ℕ) (sent : List SentPkt)
    → All NotLost sent
    → let walk = walk_lost delay now_us largest bytes deadline sent in
      count pn walk.kept + count pn walk.reported ≡ count pn sent
unfolding walk_lost
walk_lost-count delay now_us largest bytes deadline pn [] nl = refl
walk_lost-count delay now_us largest bytes deadline pn (pkt ∷ rest) nl =
    let fate = judge delay now_us largest pkt in
    let ih =
      walk_lost-count delay now_us largest (bytes_after fate pkt bytes)
        (deadline_after fate (add64 pkt.sent_time delay) deadline) pn rest nl.1 in
    let step =
      place-count fate pkt
        (walk_lost delay now_us largest (bytes_after fate pkt bytes)
          (deadline_after fate (add64 pkt.sent_time delay) deadline) rest)
        pn (judge-NotLost delay now_us largest pkt nl.0) in
    omega (arith, ih, step)

walk_acked-count :
    (frame : AckFrame) (bytes pn : ℕ) (sent : List SentPkt)
    → let walk = walk_acked frame bytes sent in
      count pn walk.kept + count pn walk.reported ≡ count pn sent
unfolding walk_acked
walk_acked-count frame bytes pn [] = refl
walk_acked-count frame bytes pn (pkt ∷ rest) = elim (Bool-cases (is_acked frame pkt.pkt_num)) [
  | inl hit ↦ ground (arith, hit, walk_acked-count frame (landed pkt bytes) pn rest)
  | inr other ↦ ground (arith, other, walk_acked-count frame bytes pn rest)
]

detect_lost_packets-count :
    (ack : AckState) (now_us largest pn : ℕ)
    → All NotLost ack.sent
    → let r = detect_lost_packets ack now_us largest in
      count pn r.0.sent + count pn r.1 ≡ count pn ack.sent
unfolding detect_lost_packets
detect_lost_packets-count ack now_us largest pn nl =
    walk_lost-count (loss_delay ack) now_us largest ack.bytes_in_flight u64_max pn ack.sent nl

pub apply_sample-sent :
    (ack : AckState) (delay : ℕ) (sample : Option ℕ)
    → (apply_sample ack delay sample).sent ≡ ack.sent
unfolding apply_sample update_rtt
apply_sample-sent ack delay none = refl
apply_sample-sent ack delay (some s) = ground arith

-- Recording a sent packet that is not declared lost keeps the bytes in flight those of the packets
-- held, while they stay below 2^64, whether or not the list can grow.
pub on_pkt_sent-IsTracked :
    (ack : AckState) (pkt : SentPkt) (grows : Bool)
    → IsTracked ack
    → NotLost pkt
    → ack.bytes_in_flight + pkt.sent_bytes < u64_mod
    → IsTracked (on_pkt_sent ack pkt grows)
unfolding on_pkt_sent
on_pkt_sent-IsTracked ack pkt grows h n hb =
    let both = All-append NotLost ack.sent (pkt ∷ []) h.1 (n, tt) in
    ground (arith, both, flight_bytes-append ack.sent (pkt ∷ []))

-- Where the bytes in flight are those of the packets held and none of these is declared lost, both
-- stay so when an ACK frame is processed; and each packet that was held is then either held still, or
-- acknowledged, or lost, exactly once: their counts for any packet number add up.
pub on_ack_recv-IsTracked :
    (ack : AckState) (frame : AckFrame) (now_us pn : ℕ)
    → IsTracked ack
    → let out = on_ack_recv ack frame now_us in
      IsTracked out.ack
      × (count pn out.ack.sent + count pn out.acked + count pn out.lost ≡ count pn ack.sent)
unfolding on_ack_recv
on_ack_recv-IsTracked ack frame now_us pn h =
    let walk = walk_acked frame ack.bytes_in_flight ack.sent in
    let rest = record ack { sent = walk.kept; bytes_in_flight = walk.bytes } in
    let sample = rtt_sample frame.largest_acked now_us walk.reported none in
    let timed = record (apply_sample rest frame.ack_delay sample) { pto_count = 0 } in
    let walked = walk_acked-flight frame 0 ack.bytes_in_flight ack.sent (omega (arith, h.0)) h.1 in
    let tracked =
      apply_sample-IsTracked rest frame.ack_delay sample (omega (arith, walked.0), walked.1) in
    let found = detect_lost_packets-count timed now_us frame.largest_acked pn tracked.1 in
    let same = ap (count pn) (apply_sample-sent rest frame.ack_delay sample) in
    (
      detect_lost_packets-IsTracked timed now_us frame.largest_acked tracked,
      omega (arith, found, same, walk_acked-count frame ack.bytes_in_flight pn ack.sent),
    )

-- The loss timer keeps the bytes in flight those of the packets held, and each packet that was held
-- is then either held or reported lost, exactly once.
pub on_loss_timeout-IsTracked :
    (ack : AckState) (now_us pn : ℕ)
    → IsTracked ack
    → let out = on_loss_timeout ack now_us in
      IsTracked out.0 × (count pn out.0.sent + count pn out.1 ≡ count pn ack.sent)
unfolding on_loss_timeout
on_loss_timeout-IsTracked ack now_us pn h =
    let largest = largest_sent 0 ack.sent in
    ground (
      arith,
      detect_lost_packets-IsTracked ack now_us largest h,
      detect_lost_packets-count ack now_us largest pn h.1,
    )
