-- ===== src/DeliveryRate/Rounds.antt =====
-- Rounds: a flight of packets starts one round at most.
use nxp.Prelude.{ℕ, ◌+◌, ◌%◌, ◌^◌, ◌≤◌, ◌<◌, ◌≡◌, refl, arith, List, [], ◌∷◌, All}
use nxp.DeliveryRate.{
  DeliveryRate, PktState, count_round, store_sample, take_sample, on_packet_acked,
}

-- An acknowledgement of a packet in flight: its snapshot, its size and the time.
pub record Acked : Type 0 where
  pub pkt_state : PktState
  pub acked_bytes : ℕ
  pub now_us : ℕ

unfoldable pub acked_all : DeliveryRate → List Acked → DeliveryRate
acked_all dr [] = dr
acked_all dr (a ∷ rest) = acked_all (on_packet_acked dr a.pkt_state a.acked_bytes a.now_us) rest

-- All the bytes of these acknowledgements.
unfoldable pub total_bytes : List Acked → ℕ
total_bytes [] = 0
total_bytes (a ∷ rest) = a.acked_bytes + total_bytes rest

-- What an acknowledgement does to the counters, when the count of bytes does not wrap.
pub counters :
    (dr : DeliveryRate) (p : PktState) (n now_us : ℕ)
    → dr.delivered + n < 2 ^ 64
    → let next = on_packet_acked dr p n now_us in
      (next.delivered ≡ dr.delivered + n)
      × (dr.next_round_delivered ≤ p.delivered
          → (next.next_round_delivered ≡ dr.delivered + n)
            × (next.round_count ≡ (dr.round_count + 1) % 2 ^ 64))
      × (p.delivered < dr.next_round_delivered
          → (next.next_round_delivered ≡ dr.next_round_delivered)
            × (next.round_count ≡ dr.round_count))
unfolding on_packet_acked take_sample store_sample count_round
counters dr p n now_us h = (ground arith, λ old. ground (arith, old), λ new. ground (arith, new))

-- Packets that were sent before the count of delivered bytes reached `limit`.
abbrev pub SentBefore : ℕ → List Acked → Type 0
SentBefore limit l = All (λ a. a.pkt_state.delivered < limit) l

same_round :
    (dr : DeliveryRate) (l : List Acked)
    → SentBefore dr.next_round_delivered l
    → dr.delivered + total_bytes l < 2 ^ 64
    → ((acked_all dr l).round_count ≡ dr.round_count)
      × ((acked_all dr l).delivered ≡ dr.delivered + total_bytes l)
unfolding acked_all total_bytes
same_round dr [] h n = (refl, omega arith)
same_round dr (a ∷ rest) (old, h) n =
    let (d, up, keep) = counters dr a.pkt_state a.acked_bytes a.now_us (omega arith) in
    let (next, count) = keep old in
    let (c, e) =
      same_round (on_packet_acked dr a.pkt_state a.acked_bytes a.now_us) rest (rw next h)
        (omega (arith, d)) in
    (omega (arith, c, count), omega (arith, e, d))

-- When an acknowledgement starts a round, no acknowledgement of a packet that was in flight by then
-- starts another: however many follow, the count of rounds has gone up by one.
pub one_round_a_flight :
    (dr : DeliveryRate) (a : Acked) (rest : List Acked)
    → dr.next_round_delivered ≤ a.pkt_state.delivered
    → 0 < a.acked_bytes
    → All (λ b. b.pkt_state.delivered ≤ dr.delivered) rest
    → dr.delivered + total_bytes (a ∷ rest) < 2 ^ 64
    → (acked_all dr (a ∷ rest)).round_count ≡ (dr.round_count + 1) % 2 ^ 64
unfolding acked_all total_bytes
one_round_a_flight dr a rest starts pos h n =
    let (d, up, keep) = counters dr a.pkt_state a.acked_bytes a.now_us (omega arith) in
    let (next, count) = up starts in
    let dr1 = on_packet_acked dr a.pkt_state a.acked_bytes a.now_us in
    let (c, e) =
      same_round dr1 rest
        (rw next (before (dr.delivered) (dr.delivered + a.acked_bytes) rest (omega arith) h))
        (omega (arith, d)) in
    omega (arith, c, count)
  where
    before :
        (old limit : ℕ) (l : List Acked)
        → old < limit
        → All (λ b. b.pkt_state.delivered ≤ old) l
        → SentBefore limit l
    before old limit [] k h = h
    before old limit (b ∷ l) k (x, h) = (omega arith, before old limit l k h)
