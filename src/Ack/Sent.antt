-- ===== src/Ack/Sent.antt =====
-- The packets in flight: `nxp_ack_on_pkt_sent`, `detect_lost_packets`, `nxp_ack_on_ack_recv` and the
-- loss timer of src/core/ack.c. What the two callbacks receive, in order, is part of the result; the
-- flight recorder and the log are left out.
pub mod Tracked
pub mod Lost
use nxp.Prelude.{
  ℕ, ◌+◌, ◌-◌, ◌*◌, ◌/◌, ◌%◌, ◌^◌, List, [], ◌∷◌, ◌++◌, Option, none, some, Bool, true, false, not,
  ◌&&◌, ◌||◌, ltb, leb, ◌==◌, if◌then◌else◌, length,
}
use nxp.Prelude.Word.{u32_mod, u64_max, add64, sub64, mul64, add32}
use nxp.Frame.Types.{AckFrame}
use nxp.Ack.Types.{
  AckState, SentPkt, u64_larger, u64_smaller, compute_pto, loss_delay_factor, packet_reorder_thresh,
}
use nxp.Ack.Build.{is_acked}
use nxp.Ack.Rtt.{update_rtt}

-- `grows` tells whether `realloc` succeeds, where the array is full.
unfoldable pub on_pkt_sent : AckState → SentPkt → Bool → AckState
on_pkt_sent ack pkt grows =
    let full = leb ack.sent_cap (length ack.sent) in
    if full && not grows then ack else record ack {
      sent = ack.sent ++ (pkt ∷ []);
      sent_cap = if full then ack.sent_cap * 2 % u32_mod else ack.sent_cap;
      bytes_in_flight =
          if pkt.in_flight then add64 ack.bytes_in_flight pkt.sent_bytes else ack.bytes_in_flight;
      time_of_last_ack_eliciting =
          if pkt.ack_eliciting then pkt.sent_time else ack.time_of_last_ack_eliciting;
    }

-- The guarded decrement of `bytes_in_flight` for a packet that leaves the list.
unfoldable pub landed : SentPkt → ℕ → ℕ
landed pkt bytes =
    if pkt.in_flight && leb pkt.sent_bytes bytes then bytes - pkt.sent_bytes else bytes

-- 9/8 of the larger of the two estimates, but one millisecond at least.
unfoldable pub loss_delay : AckState → ℕ
loss_delay ack =
    let delay = mul64 (u64_larger ack.smoothed_rtt ack.latest_rtt) loss_delay_factor / 8 in
    if ltb delay 1000 then 1000 else delay

unfoldable pub is_lost : ℕ → ℕ → ℕ → SentPkt → Bool
is_lost delay now_us largest pkt =
    leb (add64 pkt.pkt_num packet_reorder_thresh) largest || leb (add64 pkt.sent_time delay) now_us

-- What a walk over the sent packets leaves: those kept, those handed to the callback, and the two
-- fields it updates.
pub record Walk : Type 0 where
  pub kept : List SentPkt
  pub reported : List SentPkt
  pub bytes : ℕ
  pub deadline : ℕ

-- The branches of the loop of `detect_lost_packets`.
pub data Fate : Type 0 where
  skipped : Fate
  newer : Fate
  lost : Fate
  waiting : Fate

unfoldable pub judge : ℕ → ℕ → ℕ → SentPkt → Fate
judge delay now_us largest pkt =
    if pkt.declared_lost
    then skipped
    else if ltb largest pkt.pkt_num
    then newer
    else if is_lost delay now_us largest pkt
    then lost
    else waiting

unfoldable pub bytes_after : Fate → SentPkt → ℕ → ℕ
bytes_after skipped pkt bytes = bytes
bytes_after newer pkt bytes = bytes
bytes_after lost pkt bytes = landed pkt bytes
bytes_after waiting pkt bytes = bytes

unfoldable pub deadline_after : Fate → ℕ → ℕ → ℕ
deadline_after skipped due deadline = deadline
deadline_after newer due deadline = deadline
deadline_after lost due deadline = deadline
deadline_after waiting due deadline = u64_smaller deadline due

unfoldable pub place : Fate → SentPkt → Walk → Walk
place skipped pkt more = more
place newer pkt more = record more { kept = pkt ∷ more.kept }
place lost pkt more = record more { reported = record pkt { declared_lost = true } ∷ more.reported }
place waiting pkt more = record more { kept = pkt ∷ more.kept }

-- The loop of `detect_lost_packets`.
unfoldable pub walk_lost : ℕ → ℕ → ℕ → ℕ → ℕ → List SentPkt → Walk
walk_lost delay now_us largest bytes deadline [] = record {
  kept = [];
  reported = [];
  bytes = bytes;
  deadline = deadline;
}
walk_lost delay now_us largest bytes deadline (pkt ∷ rest) =
    let fate = judge delay now_us largest pkt in
    place fate pkt (
      walk_lost delay now_us largest (bytes_after fate pkt bytes)
        (deadline_after fate (add64 pkt.sent_time delay) deadline) rest)

unfoldable pub detect_lost_packets : AckState → ℕ → ℕ → AckState × List SentPkt
detect_lost_packets ack now_us largest_acked_pn =
    let walk =
      walk_lost (loss_delay ack) now_us largest_acked_pn ack.bytes_in_flight u64_max ack.sent in
    (
      record ack { sent = walk.kept; bytes_in_flight = walk.bytes; loss_time = walk.deadline },
      walk.reported,
    )

-- The loop over the sent packets of `nxp_ack_on_ack_recv`.
unfoldable pub walk_acked : AckFrame → ℕ → List SentPkt → Walk
walk_acked frame bytes [] = record { kept = []; reported = []; bytes = bytes; deadline = u64_max }
walk_acked frame bytes (pkt ∷ rest) =
    let acked = is_acked frame pkt.pkt_num in
    let more = walk_acked frame (if acked then landed pkt bytes else bytes) rest in
    if acked
    then record more { reported = pkt ∷ more.reported }
    else record more { kept = pkt ∷ more.kept }

-- The sample of the last packet of the walk that gives one.
unfoldable pub rtt_sample : ℕ → ℕ → List SentPkt → Option ℕ → Option ℕ
rtt_sample largest now_us [] sample = sample
rtt_sample largest now_us (pkt ∷ rest) sample = rtt_sample largest now_us rest (
    if pkt.pkt_num == largest && pkt.ack_eliciting
    then some (sub64 now_us pkt.sent_time)
    else sample)

unfoldable pub apply_sample : AckState → ℕ → Option ℕ → AckState
apply_sample ack ack_delay none = ack
apply_sample ack ack_delay (some sample) = update_rtt ack sample ack_delay

-- What `nxp_ack_on_ack_recv` leaves: the state, and the packets that the two callbacks receive.
pub record Outcome : Type 0 where
  pub ack : AckState
  pub acked : List SentPkt
  pub lost : List SentPkt

unfoldable pub on_ack_recv : AckState → AckFrame → ℕ → Outcome
on_ack_recv ack frame now_us =
    let walk = walk_acked frame ack.bytes_in_flight ack.sent in
    let landed_ack = record ack { sent = walk.kept; bytes_in_flight = walk.bytes } in
    let sample = rtt_sample frame.largest_acked now_us walk.reported none in
    let timed = record (apply_sample landed_ack frame.ack_delay sample) { pto_count = 0 } in
    let detected = detect_lost_packets timed now_us frame.largest_acked in
    record { ack = detected.0; acked = walk.reported; lost = detected.1 }

-- `nxp_ack_loss_timeout`. A shift by 64 or more, which C leaves undefined, gives 0 here.
unfoldable pub loss_timeout : AckState → ℕ
loss_timeout ack =
    if not (ack.loss_time == u64_max)
    then ack.loss_time
    else if ack.bytes_in_flight == 0
    then u64_max
    else add64 ack.time_of_last_ack_eliciting (mul64 (compute_pto ack) (2 ^ ack.pto_count))

unfoldable pub largest_sent : ℕ → List SentPkt → ℕ
largest_sent largest [] = largest
largest_sent largest (pkt ∷ rest) =
    largest_sent (if ltb largest pkt.pkt_num then pkt.pkt_num else largest) rest

-- `nxp_ack_on_loss_timeout`
unfoldable pub on_loss_timeout : AckState → ℕ → AckState × List SentPkt
on_loss_timeout ack now_us =
    if not (ack.loss_time == u64_max) && leb ack.loss_time now_us
    then detect_lost_packets ack now_us (largest_sent 0 ack.sent)
    else (record ack { pto_count = add32 ack.pto_count 1 }, [])
