-- ===== src/Frame/Admitted.antt =====
-- Which frames `nxp_frame_decode` admits, and where a frame ends in a packet.
use nxp.Prelude.{ℕ, ◌≤◌, ◌<◌, ◌≡◌, ◌⊎◌, List, [], ◌∷◌, true, false, length, take}
use nxp.Prelude.Word.{IsU64}
use nxp.Codec.Laws.{Carries}
use nxp.Frame.Types.{
  Frame, AckFrame, StreamFrame, max_crypto_frame_data, max_token_len, max_close_reason_len,
  max_datagram_len, ack_max_ranges, max_cid_len, max_stream_id, max_stream_offset,
  max_stream_frame_data,
}
use nxp.Frame.Decode.{conn_id}

-- Without ECN the counters are not on the wire, and the reader leaves them 0.
abbrev pub EcnAbsent : AckFrame → Type 0
EcnAbsent f = (f.has_ecn ≡ true) ⊎ ((f.ect0_count ≡ 0) × (f.ect1_count ≡ 0) × (f.ecn_ce_count ≡ 0))

-- A frame within the reader's limits.
pub record IsSendable (f : StreamFrame) : Type 0 where
  pub id_in : f.stream_id ≤ max_stream_id
  pub offset_in : f.offset ≤ max_stream_offset
  pub offset_absent : (f.has_offset ≡ true) ⊎ (f.offset ≡ 0)
  pub length_in : f.length ≤ max_stream_frame_data
  pub carried : Carries f.length f.bytes

-- The next byte, if there is one, is no padding.
abbrev pub NoZeroFirst : List ℕ → Type 0
NoZeroFirst [] = Unit {0}
NoZeroFirst (b ∷ rest) = 0 < b

-- The frames that the decoder admits: its limits, and fields that are absent left clear.
abbrev pub IsAdmitted : Frame → Type 0
IsAdmitted (Frame.padding n) = IsU64 n
IsAdmitted (Frame.ack f) = (length f.ranges ≤ ack_max_ranges) × EcnAbsent f
IsAdmitted (Frame.crypto f) = (f.length ≤ max_crypto_frame_data) × Carries f.length f.bytes
IsAdmitted (Frame.new_token f) = (f.token_len ≤ max_token_len) × Carries f.token_len f.token
IsAdmitted (Frame.stream f) = IsSendable f
IsAdmitted (Frame.new_connection_id f) =
    (f.cid.len ≤ max_cid_len)
    × (f.cid.len ≤ length f.cid.bytes)
    × (conn_id f.cid.len (take f.cid.len f.cid.bytes) ≡ f.cid)
    × (length f.stateless_reset_token ≡ 16)
IsAdmitted (Frame.path_challenge bytes) = length bytes ≡ 8
IsAdmitted (Frame.path_response bytes) = length bytes ≡ 8
IsAdmitted (Frame.connection_close f) =
    (f.reason_len ≤ max_close_reason_len)
    × Carries f.reason_len f.reason
    × ((f.is_app ≡ false) ⊎ (f.frame_type ≡ 0))
IsAdmitted (Frame.datagram f) = (f.length ≤ max_datagram_len) × Carries f.length f.bytes
IsAdmitted _ = Unit {0}

-- Where a frame ends: PADDING takes any zero byte that follows, and STREAM without a length takes
-- the rest of the packet.
abbrev pub Delimited : Frame → List ℕ → Type 0
Delimited (Frame.padding n) rest = NoZeroFirst rest
Delimited (Frame.stream f) rest = f.has_length ≡ true
Delimited _ rest = Unit {0}
