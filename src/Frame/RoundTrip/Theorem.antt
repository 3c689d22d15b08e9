-- ===== src/Frame/RoundTrip/Theorem.antt =====
-- The round trip over all frames at once.
use nxp.Prelude.{ℕ, ◌<◌, ◌^◌, ◌≡◌, List, ◌++◌, some, length, fact_if}
use nxp.Prelude.Word.{IsU64}
use nxp.Codec.{run}
use nxp.Codec.Laws.{run-Reads}
use nxp.Frame.Types.{Frame}
use nxp.Frame.Admitted.{IsAdmitted, Delimited, NoZeroFirst}
use nxp.Frame.Encode.{write_frame, write_padding}
use nxp.Frame.Decode.{decode}
use nxp.Frame.RoundTrip.Plain
use nxp.Frame.RoundTrip.Carrying
use nxp.Frame.RoundTrip.ConnectionId.{new_connection_id-Reads}
use nxp.Frame.RoundTrip.Ack.{ack-Reads}
use nxp.Frame.RoundTrip.Streams.{stream-Reads, ping-Reads}
use nxp.Frame.RoundTrip.Padding.{run-write_padding, decode-replicate}

padding-case :
    (n : ℕ) (buf out rest : List ℕ)
    → IsU64 n
    → NoZeroFirst rest
    → length buf < 2 ^ 63
    → run (write_padding n) buf ≡ some out
    → decode (out ++ rest) ≡ some (Frame.padding n, rest)
padding-case n buf out rest u d fits h =
    let (e, pos, room) = run-write_padding n buf out u fits h in
    rw e (decode-replicate n rest pos d)

-- If the encoder of a frame that the decoder admits succeeds, in a buffer of fewer than 2^63 bytes,
-- then `nxp_frame_decode` on the bytes written, followed by anything (not by a zero byte in the case
-- of PADDING, and for STREAM only with the LEN bit), gives the same frame and stops right behind it.
pub decode-write_frame :
    (f : Frame) (buf out rest : List ℕ)
    → IsAdmitted f
    → Delimited f rest
    → length buf < 2 ^ 63
    → run (write_frame f) buf ≡ some out
    → decode (out ++ rest) ≡ some (f, rest)
unfolding write_frame
decode-write_frame (Frame.padding n) buf out rest v d fits h =
    padding-case n buf out rest v d fits h
decode-write_frame Frame.ping buf out rest v d fits h =
    run-Reads decode _ _ buf out rest (ping-Reads) fits h
decode-write_frame (Frame.ack f) buf out rest v d fits h =
    run-Reads decode _ _ buf out rest (ack-Reads f v.0 v.1) fits h
decode-write_frame (Frame.reset_stream f) buf out rest v d fits h =
    run-Reads decode _ _ buf out rest (Plain.reset_stream-Reads f) fits h
decode-write_frame (Frame.stop_sending f) buf out rest v d fits h =
    run-Reads decode _ _ buf out rest (Plain.stop_sending-Reads f) fits h
decode-write_frame (Frame.crypto f) buf out rest v d fits h =
    run-Reads decode _ _ buf out rest (Carrying.crypto-Reads f v.0 v.1) fits h
decode-write_frame (Frame.new_token f) buf out rest v d fits h =
    run-Reads decode _ _ buf out rest (Carrying.new_token-Reads f v.0 v.1) fits h
decode-write_frame (Frame.stream f) buf out rest v d fits h =
    run-Reads decode _ _ buf out rest (stream-Reads f v d) fits h
decode-write_frame (Frame.max_data n) buf out rest v d fits h =
    run-Reads decode _ _ buf out rest (Plain.max_data-Reads n) fits h
decode-write_frame (Frame.max_stream_data f) buf out rest v d fits h =
    run-Reads decode _ _ buf out rest (Plain.max_stream_data-Reads f) fits h
decode-write_frame (Frame.max_streams f) buf out rest v d fits h =
    run-Reads decode _ _ buf out rest (Plain.max_streams-Reads f.max_streams f.is_bidi) fits h
decode-write_frame (Frame.data_blocked n) buf out rest v d fits h =
    run-Reads decode _ _ buf out rest (Plain.data_blocked-Reads n) fits h
decode-write_frame (Frame.stream_data_blocked f) buf out rest v d fits h =
    run-Reads decode _ _ buf out rest (Plain.stream_data_blocked-Reads f) fits h
decode-write_frame (Frame.streams_blocked f) buf out rest v d fits h =
    run-Reads decode _ _ buf out rest (Plain.streams_blocked-Reads f.max_streams f.is_bidi) fits h
decode-write_frame (Frame.new_connection_id f) buf out rest v d fits h =
    run-Reads decode _ _ buf out rest (new_connection_id-Reads f v.0 v.1 v.2 v.3) fits h
decode-write_frame (Frame.retire_connection_id n) buf out rest v d fits h =
    run-Reads decode _ _ buf out rest (Plain.retire_connection_id-Reads n) fits h
decode-write_frame (Frame.path_challenge n) buf out rest v d fits h =
    run-Reads decode _ _ buf out rest (Carrying.path_challenge-Reads n v) fits h
decode-write_frame (Frame.path_response n) buf out rest v d fits h =
    run-Reads decode _ _ buf out rest (Carrying.path_response-Reads n v) fits h
decode-write_frame (Frame.connection_close f) buf out rest v d fits h =
    run-Reads decode _ _ buf out rest
      (Carrying.connection_close-Reads f v.0 v.1 (fact_if f.is_app v.2)) fits h
decode-write_frame Frame.handshake_done buf out rest v d fits h =
    run-Reads decode _ _ buf out rest (Plain.handshake_done-Reads) fits h
decode-write_frame (Frame.heartbeat n) buf out rest v d fits h =
    run-Reads decode _ _ buf out rest (Plain.heartbeat-Reads n) fits h
decode-write_frame (Frame.stream_priority f) buf out rest v d fits h =
    run-Reads decode _ _ buf out rest (Plain.stream_priority-Reads f) fits h
decode-write_frame (Frame.datagram f) buf out rest v d fits h =
    run-Reads decode _ _ buf out rest (Carrying.datagram-Reads f v.0 v.1) fits h
