-- ===== src/Ack/Recv.antt =====
-- `nxp_ack_on_pkt_recv` of src/core/ack.c: the ranges of received packet numbers, largest first.
pub mod Ranges
use nxp.Prelude.{
  ℕ, ◌+◌, List, [], ◌∷◌, Option, none, some, Bool, true, false, ◌&&◌, ◌||◌, ltb, leb, ◌==◌,
  if◌then◌else◌, length,
}
use nxp.Prelude.Word.{add64}
use nxp.Ack.Types.{AckState, RecvRange, ack_delay_us, max_recv_ranges}

unfoldable pub contains : ℕ → RecvRange → Bool
contains pn r = leb r.start pn && leb pn r.end

-- The loop that looks for a duplicate.
unfoldable pub received : ℕ → List RecvRange → Bool
received pn [] = false
received pn (r ∷ rest) = contains pn r || received pn rest

-- Growing the range `r` down to `pn`, and merging it with the next one where they meet.
unfoldable pub extend_start : ℕ → RecvRange → List RecvRange → List RecvRange
extend_start pn r [] = record r { start = pn } ∷ []
extend_start pn r (next ∷ rest) =
    if add64 next.end 1 == pn
    then record r { start = next.start } ∷ rest
    else record r { start = pn } ∷ next ∷ rest

-- The loop that extends a range, from index 1 on: the range before the first of the list is at hand,
-- for merging. `none` means that no range was extended.
unfoldable pub extend_after : ℕ → RecvRange → List RecvRange → Option (List RecvRange)
extend_after pn prev [] = none
extend_after pn prev (r ∷ rest) =
    if contains pn r
    then some (prev ∷ r ∷ rest)
    else if pn == add64 r.end 1
    then (if prev.start == add64 pn 1
        then some (record prev { start = r.start } ∷ rest)
        else some (prev ∷ record r { end = pn } ∷ rest))
    else if add64 pn 1 == r.start
    then some (prev ∷ extend_start pn r rest)
    else elim (extend_after pn r rest) [ none ↦ none | some more ↦ some (prev ∷ more) ]

-- The loop at index 0, where there is no range to merge with above.
unfoldable pub extend : ℕ → List RecvRange → Option (List RecvRange)
extend pn [] = none
extend pn (r ∷ rest) =
    if contains pn r
    then some (r ∷ rest)
    else if pn == add64 r.end 1
    then some (record r { end = pn } ∷ rest)
    else if add64 pn 1 == r.start
    then some (extend_start pn r rest)
    else extend_after pn r rest

-- The insertion in front of the first range that does not start above `pn`.
unfoldable pub insert_new : ℕ → List RecvRange → List RecvRange
insert_new pn [] = record { start = pn; end = pn } ∷ []
insert_new pn (r ∷ rest) =
    if ltb pn r.start then r ∷ insert_new pn rest else record { start = pn; end = pn } ∷ r ∷ rest

unfoldable pub insert : ℕ → List RecvRange → List RecvRange
insert pn ranges = elim (extend pn ranges) [
  | some grown ↦ grown
  | none ↦ if ltb (length ranges) max_recv_ranges then insert_new pn ranges else ranges
]

unfoldable pub note_largest : AckState → ℕ → ℕ → AckState
note_largest ack pn now_us =
    if length ack.recv_ranges == 0 || ltb ack.largest_recv_pn pn
    then record ack { largest_recv_pn = pn; largest_recv_time = now_us }
    else ack

unfoldable pub request_ack : AckState → ℕ → Bool → AckState
request_ack ack now_us ack_eliciting =
    if ack_eliciting
    then record ack { ack_needed = true; ack_delay_timer = add64 now_us ack_delay_us }
    else ack

unfoldable pub on_pkt_recv : AckState → ℕ → ℕ → Bool → AckState
unfolding note_largest request_ack
on_pkt_recv ack pkt_num now_us ack_eliciting =
    if received pkt_num ack.recv_ranges
    then ack
    else let noted = note_largest ack pkt_num now_us in
      request_ack (record noted { recv_ranges = insert pkt_num noted.recv_ranges }) now_us
        ack_eliciting
