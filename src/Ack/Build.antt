-- ===== src/Ack/Build.antt =====
-- The ACK frame: `nxp_ack_build_frame`, and how `nxp_ack_on_ack_recv` of src/core/ack.c finds out
-- whether a frame acknowledges a packet number.
pub mod Meaning
use nxp.Prelude.{
  ℕ, zero, suc, ◌+◌, ◌-◌, List, [], ◌∷◌, Option, none, some, Bool, true, false, ◌&&◌, ◌||◌, ltb,
  leb, if◌then◌else◌,
}
use nxp.Prelude.Word.{add64, sub64}
use nxp.Frame.Types.{AckFrame, AckRange, ack_max_ranges}
use nxp.Ack.Types.{AckState, RecvRange}

-- The loop from index 1 on, over the ranges behind `prev`, while there is room for `room` more.
unfoldable pub build_ranges : ℕ → RecvRange → List RecvRange → List AckRange
build_ranges room prev [] = []
build_ranges zero prev (r ∷ rest) = []
build_ranges (suc room) prev (r ∷ rest) =
    let more = build_ranges room r rest in
    if ltb prev.start (add64 r.end 2)
    then []
    else record { gap = sub64 (sub64 prev.start r.end) 2; ack_range = sub64 r.end r.start } ∷ more

-- `nxp_ack_build_frame`; `none` is the result false.
unfoldable pub build_ranges_from : ℕ → ℕ → List RecvRange → Option AckFrame
build_ranges_from largest_recv_time now_us [] = none
build_ranges_from largest_recv_time now_us (r ∷ rest) = some (record {
  largest_acked = r.end;
  ack_delay = if ltb largest_recv_time now_us then now_us - largest_recv_time else 0;
  first_ack_range = sub64 r.end r.start;
  ranges = build_ranges ack_max_ranges r rest;
  has_ecn = false;
  ect0_count = 0;
  ect1_count = 0;
  ecn_ce_count = 0;
})

unfoldable pub build_frame : AckState → ℕ → Option AckFrame
build_frame ack now_us = build_ranges_from ack.largest_recv_time now_us ack.recv_ranges

-- The loop over the additional ranges; it stops at a range that would begin below 0.
unfoldable pub acked_below : ℕ → ℕ → List AckRange → Bool
acked_below pn cur_end [] = false
acked_below pn cur_end (r ∷ rest) =
    let end = sub64 (sub64 cur_end r.gap) 2 in
    let start = if leb r.ack_range end then end - r.ack_range else 0 in
    let more = acked_below pn start rest in
    if ltb cur_end (add64 r.gap 2) then false else (leb start pn && leb pn end) || more

-- Does the frame acknowledge the packet number?
unfoldable pub is_acked : AckFrame → ℕ → Bool
is_acked frame pn =
    let re = frame.largest_acked in
    let rs = sub64 frame.largest_acked frame.first_ack_range in
    (leb rs pn && leb pn re) || acked_below pn rs frame.ranges
