-- ===== src/Packet/Number.antt =====
-- Packet numbers: `nxp_pkt_decode_pkt_num` and `nxp_pkt_num_len` of src/core/packet.c.
pub mod Reconstruct
use nxp.Prelude.{ℕ, ◌+◌, ◌-◌, ◌*◌, ◌/◌, ◌%◌, ◌^◌, Bool, ◌&&◌, ltb, leb, if◌then◌else◌}
use nxp.Prelude.Word.{u64_max, add64, sub64}
use Prim.Native.Nat.{bit_and, bit_or}

-- `~mask`, of 64 bits.
abbrev pub not64 : ℕ → ℕ
not64 mask = u64_max - mask

-- The choice between the candidate and its two neighbours, one window up or down.
unfoldable pub nearest : ℕ → ℕ → ℕ → ℕ
nearest expected pn_win candidate =
    let pn_hwin = pn_win / 2 in
    if leb (add64 candidate pn_hwin) expected && ltb (add64 candidate pn_win) (2 ^ 62)
    then add64 candidate pn_win
    else if ltb (add64 expected pn_hwin) candidate && leb pn_win candidate
    then sub64 candidate pn_win
    else candidate

-- `nxp_pkt_decode_pkt_num`; `pn_len` is 1 to 4, so the shift is below 64.
unfoldable pub decode_pkt_num : ℕ → ℕ → ℕ → ℕ
decode_pkt_num largest_acked truncated_pn pn_len =
    let expected = add64 largest_acked 1 in
    let pn_win = 2 ^ (pn_len * 8) in
    let pn_mask = pn_win - 1 in
    nearest expected pn_win (bit_or (bit_and expected (not64 pn_mask)) truncated_pn)

-- `nxp_pkt_num_len`
unfoldable pub pkt_num_len : ℕ → ℕ → ℕ
pkt_num_len pkt_num largest_acked =
    let num_unacked = sub64 pkt_num largest_acked in
    if ltb num_unacked 0x80
    then 1
    else if ltb num_unacked 0x8000
    then 2
    else if ltb num_unacked 0x800000
    then 3
    else 4
