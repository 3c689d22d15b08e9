-- ===== src/Frame/RoundTrip/Ack.antt =====
-- The round trip of ACK frames.
use nxp.Prelude.{
  ℕ, ◌≤◌, ◌≡◌, refl, arith, List, [], ◌∷◌, Bool, true, false, length, if◌then◌else◌, fact_unless,
}
use nxp.Codec.{put_varint, pure, ◌>>=◌, ◌>>◌, skip}
use nxp.Codec.Laws.{Reads, >>-Reads, pure-Reads}
use nxp.Frame.Types.{Frame, AckFrame, AckRange, is_stream, ack_max_ranges}
use nxp.Frame.Admitted.{EcnAbsent}
use nxp.Frame.Encode.{write_ranges, write_ecn, write_ack}
use nxp.Frame.Decode.{decode, read_body, read_ranges, read_ack, get_if}
use nxp.Frame.RoundTrip.Common.{type-Reads, varint->>-Reads, reject_if-Reads, map-Reads}

ranges-Reads : (rs : List AckRange) → Reads (read_ranges (length rs)) (write_ranges rs) rs
unfolding read_ranges write_ranges
ranges-Reads [] = pure-Reads []
ranges-Reads (r ∷ rs) = varint->>-Reads _ _ _ _ (
    varint->>-Reads _ _ _ _
      (map-Reads _ _ _ (λ (more : List AckRange). r ∷ more) (ranges-Reads rs)))

ecn-Reads :
    (f : AckFrame) (k : ℕ → ℕ → ℕ → Frame) (ecn : Bool)
    → (ecn ≡ false → (f.ect0_count ≡ 0) × (f.ect1_count ≡ 0) × (f.ecn_ce_count ≡ 0))
    → Reads
        (do a ← get_if ecn; b ← get_if ecn; c ← get_if ecn; pure (k a b c))
        (if ecn
          then (put_varint f.ect0_count
              >> put_varint f.ect1_count
              >> put_varint f.ecn_ce_count
              >> skip)
          else skip)
        (k f.ect0_count f.ect1_count f.ecn_ce_count)
unfolding get_if
ecn-Reads f k true h =
    varint->>-Reads _ _ _ _ (varint->>-Reads _ _ _ _ (varint->>-Reads _ _ _ _ (pure-Reads _)))
ecn-Reads f k false h = let (a, b, c) = h refl in rw (a, b, c) (pure-Reads (k 0 0 0))

ack_body-Reads :
    (f : AckFrame)
    → length f.ranges ≤ ack_max_ranges
    → EcnAbsent f
    → Reads
        (read_ack f.has_ecn)
        (put_varint f.largest_acked
          >> put_varint f.ack_delay
          >> put_varint (length f.ranges)
          >> put_varint f.first_ack_range
          >> write_ranges f.ranges
          >> write_ecn f)
        (Frame.ack f)
unfolding read_ack write_ecn
ack_body-Reads f h absent = varint->>-Reads _ _ _ _ (
    varint->>-Reads _ _ _ _ (
      varint->>-Reads _ _ _ _ (
        reject_if-Reads _ _ _ _ _ h (
          varint->>-Reads _ _ _ _ (
            >>-Reads _ _ _ _ _ _ (ranges-Reads f.ranges) (
              ecn-Reads f
                (λ a b c. Frame.ack (record f { ect0_count = a; ect1_count = b; ecn_ce_count = c }))
                f.has_ecn (fact_unless f.has_ecn absent)))))))

typed_ack-Reads :
    (f : AckFrame) (ecn : Bool)
    → f.has_ecn ≡ ecn
    → length f.ranges ≤ ack_max_ranges
    → EcnAbsent f
    → Reads decode (write_ack f) (Frame.ack f)
unfolding write_ack read_body is_stream
typed_ack-Reads f true e h absent =
    rw e
      (type-Reads 0x03 _ _ (omega arith) (omega arith) refl (rw e at (ack_body-Reads f h absent)))
typed_ack-Reads f false e h absent =
    rw e
      (type-Reads 0x02 _ _ (omega arith) (omega arith) refl (rw e at (ack_body-Reads f h absent)))

pub ack-Reads :
    (f : AckFrame)
    → length f.ranges ≤ ack_max_ranges
    → EcnAbsent f
    → Reads decode (write_ack f) (Frame.ack f)
ack-Reads f h absent = typed_ack-Reads f f.has_ecn refl h absent
