-- ===== src/Packet/Number/Reconstruct.antt =====
-- The receiver reconstructs the packet number that the sender cut short.
use nxp.Prelude.{ℕ, zero, suc, ◌+◌, ◌-◌, ◌*◌, ◌/◌, ◌%◌, ◌^◌, ◌≤◌, ◌<◌, ◌≡◌, ap, ◌∙◌, arith}
use nxp.Prelude.Word.{add64}
use nxp.Prelude.Bits.{bit_or-disjoint}
use nxp.Prelude.Masks.{bit_and_high}
use Prim.Native.Nat.{bit_and, bit_or}
use nxp.Packet.Number.{not64, nearest, decode_pkt_num, pkt_num_len}

-- The candidate is the number that agrees with `expected` above the lowest bits, and with the cut one in them.
candidate_1 :
    (e t : ℕ)
    → e < 2 ^ 64
    → t < 2 ^ 8
    → bit_or (bit_and e (not64 (2 ^ 8 - 1))) t ≡ e - e % 2 ^ 8 + t
candidate_1 e t h0 h1 =
    ap (λ (x : ℕ). bit_or x t) (bit_and_high 8 56 e (omega arith))
    ∙ bit_or-disjoint 8 (e / 2 ^ 8) t h1
    ∙ omega arith

candidate_2 :
    (e t : ℕ)
    → e < 2 ^ 64
    → t < 2 ^ 16
    → bit_or (bit_and e (not64 (2 ^ 16 - 1))) t ≡ e - e % 2 ^ 16 + t
candidate_2 e t h0 h1 =
    ap (λ (x : ℕ). bit_or x t) (bit_and_high 16 48 e (omega arith))
    ∙ bit_or-disjoint 16 (e / 2 ^ 16) t h1
    ∙ omega arith

candidate_3 :
    (e t : ℕ)
    → e < 2 ^ 64
    → t < 2 ^ 24
    → bit_or (bit_and e (not64 (2 ^ 24 - 1))) t ≡ e - e % 2 ^ 24 + t
candidate_3 e t h0 h1 =
    ap (λ (x : ℕ). bit_or x t) (bit_and_high 24 40 e (omega arith))
    ∙ bit_or-disjoint 24 (e / 2 ^ 24) t h1
    ∙ omega arith

candidate_4 :
    (e t : ℕ)
    → e < 2 ^ 64
    → t < 2 ^ 32
    → bit_or (bit_and e (not64 (2 ^ 32 - 1))) t ≡ e - e % 2 ^ 32 + t
candidate_4 e t h0 h1 =
    ap (λ (x : ℕ). bit_or x t) (bit_and_high 32 32 e (omega arith))
    ∙ bit_or-disjoint 32 (e / 2 ^ 32) t h1
    ∙ omega arith

-- The number to send lies in the window of the receiver, who knows `largest`.
abbrev pub InWindow : ℕ → ℕ → ℕ → Type 0
InWindow largest pkt_num hwin = (largest + 1 < pkt_num + hwin) × (pkt_num ≤ largest + 1 + hwin)

nearest_1 :
    (largest pkt_num : ℕ)
    → largest < 2 ^ 62
    → pkt_num < 2 ^ 62
    → InWindow largest pkt_num (2 ^ 7)
    → nearest (largest + 1) (2 ^ 8) (largest + 1 - (largest + 1) % 2 ^ 8 + pkt_num % 2 ^ 8)
      ≡ pkt_num
unfolding nearest
nearest_1 largest pkt_num h0 h1 w = ground arith

nearest_2 :
    (largest pkt_num : ℕ)
    → largest < 2 ^ 62
    → pkt_num < 2 ^ 62
    → InWindow largest pkt_num (2 ^ 15)
    → nearest (largest + 1) (2 ^ 16) (largest + 1 - (largest + 1) % 2 ^ 16 + pkt_num % 2 ^ 16)
      ≡ pkt_num
unfolding nearest
nearest_2 largest pkt_num h0 h1 w = ground arith

nearest_3 :
    (largest pkt_num : ℕ)
    → largest < 2 ^ 62
    → pkt_num < 2 ^ 62
    → InWindow largest pkt_num (2 ^ 23)
    → nearest (largest + 1) (2 ^ 24) (largest + 1 - (largest + 1) % 2 ^ 24 + pkt_num % 2 ^ 24)
      ≡ pkt_num
unfolding nearest
nearest_3 largest pkt_num h0 h1 w = ground arith

nearest_4 :
    (largest pkt_num : ℕ)
    → largest < 2 ^ 62
    → pkt_num < 2 ^ 62
    → InWindow largest pkt_num (2 ^ 31)
    → nearest (largest + 1) (2 ^ 32) (largest + 1 - (largest + 1) % 2 ^ 32 + pkt_num % 2 ^ 32)
      ≡ pkt_num
unfolding nearest
nearest_4 largest pkt_num h0 h1 w = ground arith

via :
    (largest truncated pn_len candidate pkt_num : ℕ)
    → largest < 2 ^ 62
    → bit_or (bit_and (largest + 1) (not64 (2 ^ (pn_len * 8) - 1))) truncated ≡ candidate
    → nearest (largest + 1) (2 ^ (pn_len * 8)) candidate ≡ pkt_num
    → decode_pkt_num largest truncated pn_len ≡ pkt_num
unfolding decode_pkt_num
via largest truncated pn_len candidate pkt_num h c n =
    let expected : add64 largest 1 ≡ largest + 1 = omega arith in
    ap
      (λ (e : ℕ).
        nearest e (2 ^ (pn_len * 8)) (bit_or (bit_and e (not64 (2 ^ (pn_len * 8) - 1))) truncated))
      expected
    ∙ ap (λ (k : ℕ). nearest (largest + 1) (2 ^ (pn_len * 8)) k) c
    ∙ n

-- A packet number below 2^62, cut to its lowest 1 to 4 bytes, is what the receiver reconstructs, if it lies
-- in the half window below, or the half window above, the number that the receiver expects next.
pub decode_pkt_num-window :
    (largest pkt_num pn_len : ℕ)
    → 1 ≤ pn_len
    → pn_len ≤ 4
    → largest < 2 ^ 62
    → pkt_num < 2 ^ 62
    → InWindow largest pkt_num (2 ^ (pn_len * 8 - 1))
    → decode_pkt_num largest (pkt_num % 2 ^ (pn_len * 8)) pn_len ≡ pkt_num
decode_pkt_num-window largest pkt_num zero h0 h1 h2 h3 w = absurd (omega arith)
decode_pkt_num-window largest pkt_num (suc zero) h0 h1 h2 h3 w =
    via largest (pkt_num % 2 ^ 8) 1 _ pkt_num h2
      (candidate_1 (largest + 1) (pkt_num % 2 ^ 8) (omega arith) (omega arith))
      (nearest_1 largest pkt_num h2 h3 w)
decode_pkt_num-window largest pkt_num (suc (suc zero)) h0 h1 h2 h3 w =
    via largest (pkt_num % 2 ^ 16) 2 _ pkt_num h2
      (candidate_2 (largest + 1) (pkt_num % 2 ^ 16) (omega arith) (omega arith))
      (nearest_2 largest pkt_num h2 h3 w)
decode_pkt_num-window largest pkt_num (suc (suc (suc zero))) h0 h1 h2 h3 w =
    via largest (pkt_num % 2 ^ 24) 3 _ pkt_num h2
      (candidate_3 (largest + 1) (pkt_num % 2 ^ 24) (omega arith) (omega arith))
      (nearest_3 largest pkt_num h2 h3 w)
decode_pkt_num-window largest pkt_num (suc (suc (suc (suc zero)))) h0 h1 h2 h3 w =
    via largest (pkt_num % 2 ^ 32) 4 _ pkt_num h2
      (candidate_4 (largest + 1) (pkt_num % 2 ^ 32) (omega arith) (omega arith))
      (nearest_4 largest pkt_num h2 h3 w)
decode_pkt_num-window largest pkt_num (suc (suc (suc (suc (suc k))))) h0 h1 h2 h3 w =
    absurd (omega arith)

pkt_num_len_cases :
    (acked largest pkt_num : ℕ)
    → acked ≤ largest
    → acked < pkt_num
    → pkt_num < acked + 2 ^ 31
    → pkt_num < 2 ^ 62
    → largest + 1 < pkt_num + 2 ^ 7
    → let pn_len = pkt_num_len pkt_num acked in
      (1 ≤ pn_len) × (pn_len ≤ 4) × InWindow largest pkt_num (2 ^ (pn_len * 8 - 1))
unfolding pkt_num_len
pkt_num_len_cases acked largest pkt_num h0 h1 h2 h3 h5 = ground arith

-- The length that `nxp_pkt_num_len` chooses is enough: a packet number cut to it is reconstructed by a
-- receiver that knows at least what the sender has seen acknowledged, and at most 126 more than the
-- packet, as long as fewer than 2^31 numbers are unacknowledged.
pub decode_pkt_num-pkt_num_len :
    (acked largest pkt_num : ℕ)
    → acked ≤ largest
    → acked < pkt_num
    → pkt_num < acked + 2 ^ 31
    → pkt_num < 2 ^ 62
    → largest < 2 ^ 62
    → largest + 1 < pkt_num + 2 ^ 7
    → let pn_len = pkt_num_len pkt_num acked in
      decode_pkt_num largest (pkt_num % 2 ^ (pn_len * 8)) pn_len ≡ pkt_num
decode_pkt_num-pkt_num_len acked largest pkt_num h0 h1 h2 h3 h4 h5 =
    let chosen = pkt_num_len_cases acked largest pkt_num h0 h1 h2 h3 h5 in
    decode_pkt_num-window largest pkt_num (pkt_num_len pkt_num acked) chosen.0 chosen.1 h4 h3
      chosen.2
