-- ===== src/Ack/Recv/Ranges.antt =====
-- The received ranges stay sorted and apart, and record exactly the packet numbers received.
use nxp.Prelude.{
  ℕ, suc, ◌+◌, ◌≤◌, ◌<◌, ◌≡◌, refl, arith, List, [], ◌∷◌, none, some, Bool, true, false, ◌||◌, ◌==◌,
  length, All, Option-cases, inl, inr, ◌⊎◌,
}
use nxp.Prelude.Word.{u64_mod}
use nxp.Ack.Types.{AckState, RecvRange, max_recv_ranges}
use nxp.Ack.Recv.{
  contains, received, extend_start, extend_after, extend, insert_new, insert, on_pkt_recv,
}

-- From below `b` down: each range is not empty, and a number is missing above it.
abbrev pub IsChain : ℕ → List RecvRange → Type 0
IsChain b [] = Unit {0}
IsChain b (r ∷ rest) = (r.start ≤ r.end) × (r.end + 1 < b) × IsChain r.start rest

-- `out` records what `ranges` does and `pn`, and is a chain.
abbrev Records : ℕ → ℕ → ℕ → List RecvRange → List RecvRange → Type 0
Records b pn m ranges out = IsChain b out × (received m out ≡ (m == pn || received m ranges))

extend_start-Records :
    (b pn m : ℕ) (r : RecvRange) (rest : List RecvRange)
    → b ≤ u64_mod
    → IsChain b (r ∷ rest)
    → pn + 1 ≡ r.start
    → received pn rest ≡ false
    → Records b pn m (r ∷ rest) (extend_start pn r rest)
unfolding extend_start received contains
extend_start-Records b pn m r [] hb c e h = ground arith
extend_start-Records b pn m r (n ∷ rest) hb c e h = ground arith

-- A number above all of a chain, with one missing between, extends nothing.
extend_after_high :
    (b pn : ℕ) (prev : RecvRange) (rest : List RecvRange)
    → b ≤ pn
    → pn + 1 < u64_mod
    → IsChain b rest
    → extend_after pn prev rest ≡ none
unfolding extend_after contains
extend_after_high b pn prev [] hb hp c = refl
extend_after_high b pn prev (r ∷ rest) hb hp c =
    ground (arith, extend_after_high r.start pn r rest (omega arith) hp c.2)

extend_after-Records :
    (b pn m : ℕ) (prev : RecvRange) (rest out : List RecvRange)
    → b ≤ u64_mod
    → pn + 1 < u64_mod
    → IsChain b (prev ∷ rest)
    → pn + 1 < prev.start
    → received pn rest ≡ false
    → extend_after pn prev rest ≡ some out
    → Records b pn m (prev ∷ rest) out
unfolding extend_after received contains
extend_after-Records b pn m prev [] out hb hp c below h e = absurd (ground (arith, e))
extend_after-Records b pn m prev (r ∷ rest) out hb hp c below h e =
    elim (Option-cases (extend_after pn r rest)) [
      | inl stop ↦
          let s = extend_start-Records prev.start pn m r rest (omega arith) c.2 in
          ground (arith, stop, e, s)
      | inr (more, found) ↦
          let deeper : pn + 1 < r.start → Records prev.start pn m (r ∷ rest) more = λ low.
            extend_after-Records prev.start pn m r rest more (omega arith) hp c.2 low (ground arith)
              found in
          let s = extend_start-Records prev.start pn m r rest (omega arith) c.2 in
          let high = extend_after_high r.start pn r rest in
          ground (arith, found, e, deeper, high, s)
    ]

extend-Records :
    (b pn m : ℕ) (ranges out : List RecvRange)
    → b ≤ u64_mod
    → pn + 1 < b
    → IsChain b ranges
    → received pn ranges ≡ false
    → extend pn ranges ≡ some out
    → Records b pn m ranges out
unfolding extend received contains
extend-Records b pn m [] out hb hp c h e = absurd (ground (arith, e))
extend-Records b pn m (r ∷ rest) out hb hp c h e =
    let s = extend_start-Records b pn m r rest hb c in
    let low : pn + 1 < r.start → extend_after pn r rest ≡ some out → Records b pn m (r ∷ rest) out =
      λ below found.
        extend_after-Records b pn m r rest out hb (omega arith) c below (ground arith) found in
    let high = extend_after_high r.start pn r rest in ground (arith, e, s, low, high)

abbrev Apart : ℕ → List RecvRange → Type 0
Apart pn [] = Unit {0}
Apart pn (r ∷ rest) = ((pn + 1 < r.start) ⊎ (r.end + 1 < pn)) × Apart pn rest

-- Where nothing was extended, the number is apart from every range.
extend_after-Apart :
    (b pn : ℕ) (prev : RecvRange) (rest : List RecvRange)
    → b ≤ u64_mod
    → pn + 1 < u64_mod
    → IsChain b rest
    → extend_after pn prev rest ≡ none
    → Apart pn rest
unfolding extend_after contains
extend_after-Apart b pn prev [] hb hp c e = tt
extend_after-Apart b pn prev (r ∷ rest) hb hp c e = elim (Option-cases (extend_after pn r rest)) [
  | inl stop ↦
      (ground (arith, e, stop), extend_after-Apart r.start pn r rest (omega arith) hp c.2 stop)
  | inr (more, found) ↦ absurd (ground (arith, e, found))
]

extend-Apart :
    (b pn : ℕ) (ranges : List RecvRange)
    → b ≤ u64_mod
    → pn + 1 < u64_mod
    → IsChain b ranges
    → extend pn ranges ≡ none
    → Apart pn ranges
unfolding extend contains
extend-Apart b pn [] hb hp c e = tt
extend-Apart b pn (r ∷ rest) hb hp c e = elim (Option-cases (extend_after pn r rest)) [
  | inl stop ↦
      (ground (arith, e, stop), extend_after-Apart r.start pn r rest (omega arith) hp c.2 stop)
  | inr (more, found) ↦ absurd (ground (arith, e, found))
]

insert_new-Records :
    (b pn m : ℕ) (ranges : List RecvRange)
    → pn + 1 < b
    → IsChain b ranges
    → Apart pn ranges
    → Records b pn m ranges (insert_new pn ranges)
unfolding insert_new received contains
insert_new-Records b pn m [] hp c a = ground arith
insert_new-Records b pn m (r ∷ rest) hp c a = ground (arith, insert_new-Records r.start pn m rest)

insert-Records :
    (pn m : ℕ) (ranges : List RecvRange)
    → pn + 1 < u64_mod
    → IsChain u64_mod ranges
    → received pn ranges ≡ false
    → length ranges < max_recv_ranges
    → Records u64_mod pn m ranges (insert pn ranges)
unfolding insert
insert-Records pn m ranges hp c h room = elim (Option-cases (extend pn ranges)) [
  | inl stop ↦ ground (
    arith,
    stop,
    insert_new-Records u64_mod pn m ranges hp c
        (extend-Apart u64_mod pn ranges (omega arith) hp c stop),
  )
  | inr (out, found) ↦
      ground (arith, found, extend-Records u64_mod pn m ranges out (omega arith) hp c h found)
]

received-cong :
    (m pn : ℕ) (ranges : List RecvRange)
    → m ≡ pn
    → received pn ranges ≡ true
    → received m ranges ≡ true
received-cong m pn ranges e h = rw e h

-- With fewer than 64 ranges, recording a packet number below 2^64 - 1 adds that number, and no
-- other, to those that count as received, and keeps the ranges sorted, not empty and apart.
pub received-on_pkt_recv :
    (ack : AckState) (pn now_us : ℕ) (ack_eliciting : Bool) (m : ℕ)
    → IsChain u64_mod ack.recv_ranges
    → pn + 1 < u64_mod
    → length ack.recv_ranges < max_recv_ranges
    → let ack' = on_pkt_recv ack pn now_us ack_eliciting in
      IsChain u64_mod ack'.recv_ranges
      × (received m ack'.recv_ranges ≡ (m == pn || received m ack.recv_ranges))
unfolding on_pkt_recv
received-on_pkt_recv ack pn now_us ack_eliciting m c hp room =
    ground (arith, insert-Records pn m ack.recv_ranges hp c, received-cong m pn ack.recv_ranges)

-- Where there is no room for another range, a number may not be recorded; but none is forgotten.
insert-keeps :
    (pn m : ℕ) (ranges : List RecvRange)
    → pn + 1 < u64_mod
    → IsChain u64_mod ranges
    → received pn ranges ≡ false
    → IsChain u64_mod (insert pn ranges)
      × (received m ranges ≡ true → received m (insert pn ranges) ≡ true)
unfolding insert
insert-keeps pn m ranges hp c h = elim (Option-cases (extend pn ranges)) [
  | inl stop ↦
      let apart = extend-Apart u64_mod pn ranges (omega arith) hp c stop in
      ground (arith, stop, c, insert_new-Records u64_mod pn m ranges hp c apart)
  | inr (out, found) ↦
      ground (arith, found, extend-Records u64_mod pn m ranges out (omega arith) hp c h found)
]

on_pkt_recv-keeps :
    (ack : AckState) (pn now_us : ℕ) (ack_eliciting : Bool) (m : ℕ)
    → IsChain u64_mod ack.recv_ranges
    → pn + 1 < u64_mod
    → let ack' = on_pkt_recv ack pn now_us ack_eliciting in
      IsChain u64_mod ack'.recv_ranges
      × (received m ack.recv_ranges ≡ true → received m ack'.recv_ranges ≡ true)
unfolding on_pkt_recv
on_pkt_recv-keeps ack pn now_us ack_eliciting m c hp =
    ground (arith, c, insert-keeps pn m ack.recv_ranges hp c)

pub record Arrival : Type 0 where
  pub pkt_num : ℕ
  pub now_us : ℕ
  pub ack_eliciting : Bool

pub recv_all : AckState → List Arrival → AckState
recv_all ack [] = ack
recv_all ack (a ∷ rest) = recv_all (on_pkt_recv ack a.pkt_num a.now_us a.ack_eliciting) rest

abbrev pub IsNumbered : Arrival → Type 0
IsNumbered a = a.pkt_num + 1 < u64_mod

received-recv_all :
    (ack : AckState) (between : List Arrival) (m : ℕ)
    → IsChain u64_mod ack.recv_ranges
    → All IsNumbered between
    → received m ack.recv_ranges ≡ true
    → received m (recv_all ack between).recv_ranges ≡ true
unfolding recv_all
received-recv_all ack [] m c all h = h
received-recv_all ack (a ∷ rest) m c (small, all) h =
    let kept = on_pkt_recv-keeps ack a.pkt_num a.now_us a.ack_eliciting m c small in
    received-recv_all (on_pkt_recv ack a.pkt_num a.now_us a.ack_eliciting) rest m kept.0 all
      (kept.1 h)

duplicate :
    (ack : AckState) (pn now_us : ℕ) (ack_eliciting : Bool)
    → received pn ack.recv_ranges ≡ true
    → on_pkt_recv ack pn now_us ack_eliciting ≡ ack
duplicate ack pn now_us ack_eliciting h = unfold on_pkt_recv in rw h

-- A packet that arrives again changes nothing, whenever it does, whatever has arrived since and whatever it
-- asks for: if the ranges are sorted and apart and fewer than 64 when the first copy arrives, and all packet
-- numbers are below 2^64 - 1, what the first copy has recorded is not forgotten, also where the 64 ranges have
-- been filled since, and makes the second copy a duplicate.
pub on_pkt_recv_replay :
    (ack : AckState) (pn now_us later_us : ℕ) (ack_eliciting again : Bool) (between : List Arrival)
    → IsChain u64_mod ack.recv_ranges
    → pn + 1 < u64_mod
    → length ack.recv_ranges < max_recv_ranges
    → All IsNumbered between
    → let since = recv_all (on_pkt_recv ack pn now_us ack_eliciting) between in
      on_pkt_recv since pn later_us again ≡ since
on_pkt_recv_replay ack pn now_us later_us ack_eliciting again between c hp room all =
    let first = on_pkt_recv ack pn now_us ack_eliciting in
    let (chain, there) = received-on_pkt_recv ack pn now_us ack_eliciting pn c hp room in
    duplicate (recv_all first between) pn later_us again
      (received-recv_all first between pn chain all (ground (arith, there)))

length-extend_start :
    (pn : ℕ) (r : RecvRange) (rest : List RecvRange)
    → length (extend_start pn r rest) ≤ suc (length rest)
unfolding extend_start
length-extend_start pn r [] = omega arith
length-extend_start pn r (n ∷ rest) = ground arith

length-extend_after :
    (pn : ℕ) (prev : RecvRange) (rest out : List RecvRange)
    → extend_after pn prev rest ≡ some out
    → length out ≤ suc (length rest)
unfolding extend_after
length-extend_after pn prev [] out e = absurd (ground (arith, e))
length-extend_after pn prev (r ∷ rest) out e = elim (Option-cases (extend_after pn r rest)) [
  | inl stop ↦ ground (arith, stop, e, length-extend_start pn r rest)
  | inr (more, found) ↦
      ground
        (arith, found, e, length-extend_start pn r rest, length-extend_after pn r rest more found)
]

length-extend :
    (pn : ℕ) (ranges out : List RecvRange)
    → extend pn ranges ≡ some out
    → length out ≤ length ranges
unfolding extend
length-extend pn [] out e = absurd (ground (arith, e))
length-extend pn (r ∷ rest) out e =
    ground (arith, e, length-extend_start pn r rest, length-extend_after pn r rest out)

length-insert_new :
    (pn : ℕ) (ranges : List RecvRange) → length (insert_new pn ranges) ≡ suc (length ranges)
unfolding insert_new
length-insert_new pn [] = omega arith
length-insert_new pn (r ∷ rest) = ground (arith, length-insert_new pn rest)

length-insert :
    (pn : ℕ) (ranges : List RecvRange)
    → length ranges ≤ max_recv_ranges
    → length (insert pn ranges) ≤ max_recv_ranges
unfolding insert
length-insert pn ranges h = elim (Option-cases (extend pn ranges)) [
  | inl stop ↦ ground (arith, stop, length-insert_new pn ranges)
  | inr (out, found) ↦ ground (arith, found, length-extend pn ranges out found)
]

-- The array of received ranges never holds more than its 64 elements.
pub length-on_pkt_recv :
    (ack : AckState) (pn now_us : ℕ) (ack_eliciting : Bool)
    → length ack.recv_ranges ≤ max_recv_ranges
    → length (on_pkt_recv ack pn now_us ack_eliciting).recv_ranges ≤ max_recv_ranges
unfolding on_pkt_recv
length-on_pkt_recv ack pn now_us ack_eliciting h =
    ground (arith, length-insert pn ack.recv_ranges h)
