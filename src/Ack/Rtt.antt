-- ===== src/Ack/Rtt.antt =====
-- `update_rtt` of src/core/ack.c: the round-trip time estimate.
use nxp.Prelude.{
  ℕ, ◌-◌, ◌/◌, ◌^◌, ◌≤◌, ◌<◌, ◌≡◌, ◌⊎◌, arith, true, false, ◌&&◌, ltb, leb, if◌then◌else◌,
}
use nxp.Prelude.Word.{add64, mul64}
use nxp.Ack.Types.{AckState, ack_delay_us, u64_smaller, u64_larger}

-- The sample less the peer's delay, where that does not bring it below the minimum.
unfoldable pub adjust : ℕ → ℕ → ℕ → ℕ
adjust min_rtt latest_rtt ack_delay =
    if ltb ack_delay latest_rtt && leb min_rtt (latest_rtt - ack_delay)
    then latest_rtt - ack_delay
    else latest_rtt

unfoldable pub distance : ℕ → ℕ → ℕ
distance a b = if ltb b a then a - b else b - a

unfoldable pub update_rtt : AckState → ℕ → ℕ → AckState
unfolding adjust distance
update_rtt ack latest_rtt ack_delay =
    let min_rtt = u64_smaller ack.min_rtt latest_rtt in
    let delay = if ltb ack_delay_us ack_delay then ack_delay_us else ack_delay in
    let adjusted = adjust min_rtt latest_rtt delay in
    let diff = distance ack.smoothed_rtt adjusted in
    if ack.has_rtt
    then record ack {
      latest_rtt = latest_rtt;
      min_rtt = min_rtt;
      rtt_var = add64 (mul64 3 ack.rtt_var) diff / 4;
      smoothed_rtt = add64 (mul64 7 ack.smoothed_rtt) adjusted / 8;
    }
    else record ack {
      latest_rtt = latest_rtt;
      min_rtt = min_rtt;
      smoothed_rtt = latest_rtt;
      rtt_var = latest_rtt / 2;
      has_rtt = true;
    }

-- For an estimate and a sample below 2^60 microseconds, where the estimate, once there is one, is at least
-- the minimum: after the sample it is at least the new minimum, which is at most the sample; and it is
-- at most the larger of the old estimate and the sample, and at least the smaller of the old
-- estimate and the sample less 25 milliseconds.
pub update_rtt_bounds :
    (ack : AckState) (latest_rtt ack_delay : ℕ)
    → ack.smoothed_rtt < 2 ^ 60
    → latest_rtt < 2 ^ 60
    → (ack.has_rtt ≡ false) ⊎ (ack.min_rtt ≤ ack.smoothed_rtt)
    → let ack' = update_rtt ack latest_rtt ack_delay in
      (ack'.min_rtt ≤ ack'.smoothed_rtt)
      × (ack'.smoothed_rtt ≤ u64_larger ack.smoothed_rtt latest_rtt)
      × (u64_smaller ack.smoothed_rtt (latest_rtt - ack_delay_us) ≤ ack'.smoothed_rtt)
      × (ack'.min_rtt ≤ latest_rtt)
      × (ack'.has_rtt ≡ true)
unfolding update_rtt adjust u64_smaller u64_larger
update_rtt_bounds ack latest_rtt ack_delay hs hl hm = ground arith
