-- ===== src/Ack/Build/Meaning.antt =====
-- An ACK frame built from the received ranges acknowledges exactly what was received.
use nxp.Prelude.{ℕ, zero, suc, ◌≤◌, ◌<◌, ◌≡◌, refl, arith, List, [], ◌∷◌, some, length}
use nxp.Prelude.Word.{u64_mod}
use nxp.Frame.Types.{AckFrame}
use nxp.Ack.Types.{AckState, RecvRange, max_recv_ranges}
use nxp.Ack.Recv.{received, contains}
use nxp.Ack.Recv.Ranges.{IsChain}
use nxp.Ack.Build.{build_ranges, build_ranges_from, build_frame, acked_below, is_acked}

acked_below-build_ranges :
    (room pn : ℕ) (prev : RecvRange) (rest : List RecvRange)
    → length rest ≤ room
    → prev.start < u64_mod
    → IsChain prev.start rest
    → acked_below pn prev.start (build_ranges room prev rest) ≡ received pn rest
unfolding acked_below build_ranges received contains
acked_below-build_ranges room pn prev [] h hp c = refl
acked_below-build_ranges zero pn prev (r ∷ rest) h hp c = absurd (omega arith)
acked_below-build_ranges (suc room) pn prev (r ∷ rest) h hp c =
    ground (arith, acked_below-build_ranges room pn r rest (omega arith) (omega arith) c.2)

is_acked-build_ranges_from :
    (t now_us pn : ℕ) (ranges : List RecvRange) (frame : AckFrame)
    → IsChain u64_mod ranges
    → length ranges ≤ max_recv_ranges
    → build_ranges_from t now_us ranges ≡ some frame
    → is_acked frame pn ≡ received pn ranges
unfolding build_ranges_from is_acked received contains
is_acked-build_ranges_from t now_us pn [] frame c h e = absurd (ground (arith, e))
is_acked-build_ranges_from t now_us pn (r ∷ rest) frame c h e =
    ground (arith, e, acked_below-build_ranges 64 pn r rest (omega arith) (omega arith) c.2)

-- For ranges that are sorted and apart, and at most 64, the ACK frame that is built acknowledges, by
-- the test that the peer applies to it, exactly the packet numbers that count as received.
pub is_acked-build_frame :
    (ack : AckState) (now_us : ℕ) (frame : AckFrame) (pn : ℕ)
    → IsChain u64_mod ack.recv_ranges
    → length ack.recv_ranges ≤ max_recv_ranges
    → build_frame ack now_us ≡ some frame
    → is_acked frame pn ≡ received pn ack.recv_ranges
unfolding build_frame
is_acked-build_frame ack now_us frame pn c h e =
    is_acked-build_ranges_from ack.largest_recv_time now_us pn ack.recv_ranges frame c h e
