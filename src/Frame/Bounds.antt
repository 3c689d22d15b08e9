-- ===== src/Frame/Bounds.antt =====
-- What the encoders of src/core/frame.c have written, when they succeed, fits in their buffer.
use nxp.Prelude.{
  ℕ, ◌≤◌, ◌<◌, ◌^◌, ◌≡◌, refl, arith, List, [], ◌∷◌, Option, some, Bool, true, false, length,
  length-replicate, ◌≢◌, ltb-false, ltb, if◌then◌else◌, Bool-cases, inl, inr,
}
use nxp.Prelude.Word.{IsU64}
use nxp.Codec.{Writer, ◌>>◌, skip, fail_if, put_varint, put_data, run}
use nxp.Codec.Laws.{
  IsBounded, >>-IsBounded, skip-IsBounded, put_varint-IsBounded, put_varint->>-IsBounded,
  put_byte-IsBounded, put_data-IsBounded, Readable, run-bounded,
}
use nxp.Frame.Types.{Frame, AckRange, StreamFrame, NewConnectionIdFrame, max_cid_len}
use nxp.Frame.Encode.{
  write_frame, write_ranges, put_data_if, check_cid_room, write_ping, write_ack, write_ecn,
  write_reset_stream, write_stop_sending, write_crypto, write_new_token, write_stream,
  write_max_data, write_max_stream_data, write_max_streams, write_data_blocked,
  write_stream_data_blocked, write_streams_blocked, write_new_connection_id,
  write_retire_connection_id, write_path_challenge, write_path_response, write_connection_close,
  write_handshake_done, write_heartbeat, write_stream_priority, write_datagram,
}
use nxp.Frame.RoundTrip.Padding.{run-write_padding}

-- The memory behind a frame's pointers is as long as the frame says, or the pointer is null.
abbrev pub IsReadable : Frame → Type 0
IsReadable (Frame.crypto f) = Readable f.bytes f.length
IsReadable (Frame.new_token f) = Readable f.token f.token_len
IsReadable (Frame.stream f) = Readable f.bytes f.length
IsReadable (Frame.new_connection_id f) =
    (f.cid.len ≤ length f.cid.bytes) × (16 ≤ length f.stateless_reset_token)
IsReadable (Frame.path_challenge bytes) = 8 ≤ length bytes
IsReadable (Frame.path_response bytes) = 8 ≤ length bytes
IsReadable (Frame.connection_close f) = Readable f.reason f.reason_len
IsReadable (Frame.datagram f) = Readable f.bytes f.length
IsReadable (Frame.padding n) = IsU64 n
IsReadable _ = Unit {0}

var : (v : ℕ) (w : Writer) → IsBounded w → IsBounded (put_varint v >> w)
var v w h = >>-IsBounded (put_varint v) w (put_varint-IsBounded v) h

if-IsBounded :
    (b : Bool) (v w : Writer) → IsBounded v → IsBounded w → IsBounded (if b then v else w)
if-IsBounded true v w hv hw = hv
if-IsBounded false v w hv hw = hw

fail_if-IsBounded : (b : Bool) (w : Writer) → IsBounded w → IsBounded (fail_if b w)
unfolding IsBounded
fail_if-IsBounded true w h c out c' fits e = absurd (ground (arith, e))
fail_if-IsBounded false w h c out c' fits e = h c out c' fits e

check_cid_room-IsBounded : (n : ℕ) → IsBounded (check_cid_room n)
unfolding IsBounded check_cid_room
check_cid_room-IsBounded n c out c' fits e = ground (arith, e)

put_data_if-IsBounded :
    (src : Option (List ℕ)) (n : ℕ) → n < 2 ^ 63 → Readable src n → IsBounded (put_data_if src n)
unfolding put_data_if
put_data_if-IsBounded src n small ok =
    if-IsBounded (ltb 0 n) _ _ (put_data-IsBounded src n small ok) skip-IsBounded

-- A length, and then as many bytes.
counted :
    (src : Option (List ℕ)) (n : ℕ)
    → Readable src n
    → IsBounded (put_varint n >> put_data src n >> skip)
counted src n ok =
    put_varint->>-IsBounded n _
      (λ small. >>-IsBounded _ _ (put_data-IsBounded src n (omega arith) ok) skip-IsBounded)

counted_if :
    (src : Option (List ℕ)) (n : ℕ)
    → Readable src n
    → IsBounded (put_varint n >> put_data_if src n >> skip)
counted_if src n ok =
    put_varint->>-IsBounded n _
      (λ small. >>-IsBounded _ _ (put_data_if-IsBounded src n (omega arith) ok) skip-IsBounded)

ranges-IsBounded : (rs : List AckRange) → IsBounded (write_ranges rs)
unfolding write_ranges
ranges-IsBounded [] = skip-IsBounded
ranges-IsBounded (r ∷ rs) = var _ _ (var _ _ (ranges-IsBounded rs))

stream_tail-IsBounded :
    (f : StreamFrame) (there : Bool)
    → Readable f.bytes f.length
    → IsBounded (
        (if there then put_varint f.length else skip)
        >> put_data_if f.bytes (if there then f.length else 0)
        >> skip)
unfolding put_data_if
stream_tail-IsBounded f true ok = counted_if f.bytes f.length ok
stream_tail-IsBounded f false ok =
    >>-IsBounded _ _ skip-IsBounded (>>-IsBounded _ _ skip-IsBounded skip-IsBounded)

conn_id-IsBounded :
    (f : NewConnectionIdFrame)
    → (f.cid.len ≤ length f.cid.bytes) × (16 ≤ length f.stateless_reset_token)
    → IsBounded (write_new_connection_id f)
unfolding write_new_connection_id
conn_id-IsBounded f ok = elim (Bool-cases (ltb max_cid_len f.cid.len)) [
  | inl over ↦ rw over (fail_if-IsBounded true skip skip-IsBounded)
  | inr within ↦ fail_if-IsBounded _ _ (
      var _ _ (
        var _ _ (
          var _ _ (
            >>-IsBounded _ _ (check_cid_room-IsBounded f.cid.len) (
              >>-IsBounded _ _ (put_byte-IsBounded f.cid.len) (
                >>-IsBounded _ _
                  (put_data-IsBounded (some f.cid.bytes) f.cid.len
                    (omega (arith, ltb-false max_cid_len f.cid.len within)) ok.0)
                  (>>-IsBounded _ _
                    (put_data-IsBounded (some f.stateless_reset_token) 16 (omega arith) ok.1)
                    skip-IsBounded)))))))
]

-- Every encoder but that of PADDING.
bounded : (f : Frame) → ((n : ℕ) → f ≢ Frame.padding n) → IsReadable f → IsBounded (write_frame f)
unfolding write_frame write_ping write_ack write_ecn write_reset_stream write_stop_sending
    write_crypto write_new_token write_stream write_max_data write_max_stream_data write_max_streams
    write_data_blocked write_stream_data_blocked write_streams_blocked write_retire_connection_id
    write_path_challenge write_path_response write_connection_close write_handshake_done
    write_heartbeat write_stream_priority write_datagram
bounded (Frame.padding n) other ok = absurd (other n refl)
bounded Frame.ping other ok = put_byte-IsBounded 0x01
bounded (Frame.ack f) other ok = var _ _ (
    var _ _ (
      var _ _ (
        var _ _ (
          var _ _ (
            >>-IsBounded _ _ (ranges-IsBounded f.ranges) (
              if-IsBounded f.has_ecn _ _ (var _ _ (var _ _ (var _ _ (skip-IsBounded))))
                skip-IsBounded))))))
bounded (Frame.reset_stream f) other ok = var _ _ (var _ _ (var _ _ (var _ _ (skip-IsBounded))))
bounded (Frame.stop_sending f) other ok = var _ _ (var _ _ (var _ _ (skip-IsBounded)))
bounded (Frame.crypto f) other ok = var _ _ (var _ _ (counted f.bytes f.length ok))
bounded (Frame.new_token f) other ok = var _ _ (counted f.token f.token_len ok)
bounded (Frame.stream f) other ok = >>-IsBounded _ _ (put_byte-IsBounded _) (
    var _ _ (
      >>-IsBounded _ _
        (if-IsBounded f.has_offset _ _ (put_varint-IsBounded f.offset) skip-IsBounded)
        (stream_tail-IsBounded f f.has_length ok)))
bounded (Frame.max_data n) other ok = var _ _ (var _ _ (skip-IsBounded))
bounded (Frame.max_stream_data f) other ok = var _ _ (var _ _ (var _ _ (skip-IsBounded)))
bounded (Frame.max_streams f) other ok = var _ _ (var _ _ (skip-IsBounded))
bounded (Frame.data_blocked n) other ok = var _ _ (var _ _ (skip-IsBounded))
bounded (Frame.stream_data_blocked f) other ok = var _ _ (var _ _ (var _ _ (skip-IsBounded)))
bounded (Frame.streams_blocked f) other ok = var _ _ (var _ _ (skip-IsBounded))
bounded (Frame.new_connection_id f) other ok = conn_id-IsBounded f ok
bounded (Frame.retire_connection_id n) other ok = var _ _ (var _ _ (skip-IsBounded))
bounded (Frame.path_challenge b) other ok =
    var _ _ (>>-IsBounded _ _ (put_data-IsBounded (some b) 8 (omega arith) ok) skip-IsBounded)
bounded (Frame.path_response b) other ok =
    var _ _ (>>-IsBounded _ _ (put_data-IsBounded (some b) 8 (omega arith) ok) skip-IsBounded)
bounded (Frame.connection_close f) other ok = var _ _ (
    var _ _ (
      >>-IsBounded _ _
        (if-IsBounded f.is_app _ _ skip-IsBounded (put_varint-IsBounded f.frame_type))
        (counted_if f.reason f.reason_len ok)))
bounded Frame.handshake_done other ok = var _ _ (skip-IsBounded)
bounded (Frame.heartbeat n) other ok = var _ _ (var _ _ (skip-IsBounded))
bounded (Frame.stream_priority f) other ok =
    var _ _ (var _ _ (>>-IsBounded _ _ (put_byte-IsBounded f.priority) skip-IsBounded))
bounded (Frame.datagram f) other ok = var _ _ (counted_if f.bytes f.length ok)

-- An encoder of the frame engine that succeeds, for any values of the frame's numbers, has written at most
-- the length of its buffer (of fewer than 2^63 bytes), provided that each non-null pointer has the claimed
-- bytes behind it. What an encoder stores before it fails is not modelled.
pub length-write_frame :
    (f : Frame) (buf out : List ℕ)
    → IsReadable f
    → length buf < 2 ^ 63
    → run (write_frame f) buf ≡ some out
    → length out ≤ length buf
unfolding write_frame
length-write_frame (Frame.padding n) buf out ok fits h =
    let (e, pos, room) = run-write_padding n buf out ok fits h in
    rw e (omega (arith, room, length-replicate {A = ℕ} n 0))
length-write_frame Frame.ping buf out ok fits h =
    run-bounded _ buf out (bounded Frame.ping (λ k e. cc e) ok) fits h
length-write_frame (Frame.ack f) buf out ok fits h =
    run-bounded _ buf out (bounded (Frame.ack f) (λ k e. cc e) ok) fits h
length-write_frame (Frame.reset_stream f) buf out ok fits h =
    run-bounded _ buf out (bounded (Frame.reset_stream f) (λ k e. cc e) ok) fits h
length-write_frame (Frame.stop_sending f) buf out ok fits h =
    run-bounded _ buf out (bounded (Frame.stop_sending f) (λ k e. cc e) ok) fits h
length-write_frame (Frame.crypto f) buf out ok fits h =
    run-bounded _ buf out (bounded (Frame.crypto f) (λ k e. cc e) ok) fits h
length-write_frame (Frame.new_token f) buf out ok fits h =
    run-bounded _ buf out (bounded (Frame.new_token f) (λ k e. cc e) ok) fits h
length-write_frame (Frame.stream f) buf out ok fits h =
    run-bounded _ buf out (bounded (Frame.stream f) (λ k e. cc e) ok) fits h
length-write_frame (Frame.max_data n) buf out ok fits h =
    run-bounded _ buf out (bounded (Frame.max_data n) (λ k e. cc e) ok) fits h
length-write_frame (Frame.max_stream_data f) buf out ok fits h =
    run-bounded _ buf out (bounded (Frame.max_stream_data f) (λ k e. cc e) ok) fits h
length-write_frame (Frame.max_streams f) buf out ok fits h =
    run-bounded _ buf out (bounded (Frame.max_streams f) (λ k e. cc e) ok) fits h
length-write_frame (Frame.data_blocked n) buf out ok fits h =
    run-bounded _ buf out (bounded (Frame.data_blocked n) (λ k e. cc e) ok) fits h
length-write_frame (Frame.stream_data_blocked f) buf out ok fits h =
    run-bounded _ buf out (bounded (Frame.stream_data_blocked f) (λ k e. cc e) ok) fits h
length-write_frame (Frame.streams_blocked f) buf out ok fits h =
    run-bounded _ buf out (bounded (Frame.streams_blocked f) (λ k e. cc e) ok) fits h
length-write_frame (Frame.new_connection_id f) buf out ok fits h =
    run-bounded _ buf out (bounded (Frame.new_connection_id f) (λ k e. cc e) ok) fits h
length-write_frame (Frame.retire_connection_id n) buf out ok fits h =
    run-bounded _ buf out (bounded (Frame.retire_connection_id n) (λ k e. cc e) ok) fits h
length-write_frame (Frame.path_challenge b) buf out ok fits h =
    run-bounded _ buf out (bounded (Frame.path_challenge b) (λ k e. cc e) ok) fits h
length-write_frame (Frame.path_response b) buf out ok fits h =
    run-bounded _ buf out (bounded (Frame.path_response b) (λ k e. cc e) ok) fits h
length-write_frame (Frame.connection_close f) buf out ok fits h =
    run-bounded _ buf out (bounded (Frame.connection_close f) (λ k e. cc e) ok) fits h
length-write_frame Frame.handshake_done buf out ok fits h =
    run-bounded _ buf out (bounded Frame.handshake_done (λ k e. cc e) ok) fits h
length-write_frame (Frame.heartbeat n) buf out ok fits h =
    run-bounded _ buf out (bounded (Frame.heartbeat n) (λ k e. cc e) ok) fits h
length-write_frame (Frame.stream_priority f) buf out ok fits h =
    run-bounded _ buf out (bounded (Frame.stream_priority f) (λ k e. cc e) ok) fits h
length-write_frame (Frame.datagram f) buf out ok fits h =
    run-bounded _ buf out (bounded (Frame.datagram f) (λ k e. cc e) ok) fits h
