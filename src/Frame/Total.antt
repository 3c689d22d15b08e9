-- ===== src/Frame/Total.antt =====
-- The encoders of src/core/frame.c succeed in every buffer that is large enough.
use nxp.Prelude.{
  ℕ, ◌+◌, ◌*◌, ◌≤◌, ◌<◌, ◌^◌, ◌≡◌, arith, List, [], ◌∷◌, ◌++◌, Option, some, none, Bool, true,
  false, length, length-replicate, replicate, ltb, if◌then◌else◌, All, ◌==◌,
}
use nxp.Varint.{varint_max}
use nxp.Codec.{Cursor, Writer, ◌>>◌, skip, put_varint, put_data, run}
use nxp.Codec.Laws.{Readable, Carries}
use nxp.Codec.Total.{
  Writes, skip-Writes, >>-Writes, more, put_byte-Writes, put_varint-Writes, put_data-Writes,
  run_total,
}
use nxp.Frame.Types.{Frame, AckFrame, AckRange, NewConnectionIdFrame, max_cid_len}
use nxp.Frame.Admitted.{IsAdmitted, Delimited}
use nxp.Frame.Decode.{decode}
use nxp.Frame.RoundTrip.Theorem.{decode-write_frame}
use nxp.Frame.Encode.{
  write_frame, write_padding, write_ranges, put_data_if, check_cid_room, write_ping, write_ack,
  write_ecn, write_reset_stream, write_stop_sending, write_crypto, write_new_token, write_stream,
  write_max_data, write_max_stream_data, write_max_streams, write_data_blocked,
  write_stream_data_blocked, write_streams_blocked, write_new_connection_id,
  write_retire_connection_id, write_path_challenge, write_path_response, write_connection_close,
  write_handshake_done, write_heartbeat, write_stream_priority, write_datagram,
}

abbrev Small : ℕ → Type 0
Small n = n ≤ varint_max

-- Every number of the frame has a varint.
abbrev pub IsWire : Frame → Type 0
IsWire (Frame.ack f) =
    Small f.largest_acked
    × Small f.ack_delay
    × Small f.first_ack_range
    × All (λ (r : AckRange). Small r.gap × Small r.ack_range) f.ranges
    × Small f.ect0_count
    × Small f.ect1_count
    × Small f.ecn_ce_count
IsWire (Frame.reset_stream f) = Small f.stream_id × Small f.error_code × Small f.final_size
IsWire (Frame.stop_sending f) = Small f.stream_id × Small f.error_code
IsWire (Frame.crypto f) = Small f.offset
IsWire (Frame.max_data n) = Small n
IsWire (Frame.max_stream_data f) = Small f.stream_id × Small f.max_stream_data
IsWire (Frame.max_streams f) = Small f.max_streams
IsWire (Frame.data_blocked n) = Small n
IsWire (Frame.stream_data_blocked f) = Small f.stream_id × Small f.max_stream_data
IsWire (Frame.streams_blocked f) = Small f.max_streams
IsWire (Frame.new_connection_id f) = Small f.seq_num × Small f.retire_prior_to
IsWire (Frame.retire_connection_id n) = Small n
IsWire (Frame.connection_close f) = Small f.error_code × Small f.frame_type
IsWire (Frame.heartbeat n) = Small n
IsWire (Frame.stream_priority f) = Small f.stream_id
IsWire (Frame.padding n) = 0 < n
IsWire _ = Unit {0}

-- Room that is enough: 8 bytes for each number, and the bytes carried.
abbrev pub room_for : Frame → ℕ
room_for (Frame.padding n) = n
room_for (Frame.ack f) = 64 + 16 * length f.ranges
room_for (Frame.crypto f) = 24 + f.length
room_for (Frame.new_token f) = 16 + f.token_len
room_for (Frame.stream f) = 25 + f.length
room_for (Frame.connection_close f) = 32 + f.reason_len
room_for (Frame.datagram f) = 16 + f.length
room_for _ = 64

num : (n v : ℕ) (w : Writer) → v ≤ varint_max → Writes n w → Writes (8 + n) (put_varint v >> w)
num n v w small h = >>-Writes 8 n (put_varint v) w (put_varint-Writes v small) h

if-Writes :
    (n : ℕ) (b : Bool) (v w : Writer) → Writes n v → Writes n w → Writes n (if b then v else w)
if-Writes n true v w hv hw = hv
if-Writes n false v w hv hw = hw

nothing : (n : ℕ) → Writes n skip
nothing n = more 0 n skip (omega arith) skip-Writes

Carries-Readable : (n : ℕ) (src : Option (List ℕ)) → Carries n src → Readable src n
Carries-Readable n none h = tt
Carries-Readable n (some bytes) h = omega arith

copied :
    (src : Option (List ℕ)) (n : ℕ)
    → n < 2 ^ 60
    → Carries n src
    → Writes (n + 0) (put_data src n >> skip)
copied src n small h =
    >>-Writes n 0 _ _ (put_data-Writes src n (omega arith) (Carries-Readable n src h)) skip-Writes

put_data_if-Writes :
    (src : Option (List ℕ)) (n : ℕ) → n < 2 ^ 60 → Carries n src → Writes n (put_data_if src n)
unfolding put_data_if
put_data_if-Writes src n small h =
    if-Writes n (ltb 0 n) _ _ (put_data-Writes src n (omega arith) (Carries-Readable n src h))
      (nothing n)

copied_if :
    (src : Option (List ℕ)) (n : ℕ)
    → n < 2 ^ 60
    → Carries n src
    → Writes (n + 0) (put_data_if src n >> skip)
copied_if src n small h = >>-Writes n 0 _ _ (put_data_if-Writes src n small h) skip-Writes

ranges-Writes :
    (rs : List AckRange)
    → All (λ (r : AckRange). Small r.gap × Small r.ack_range) rs
    → Writes (16 * length rs) (write_ranges rs)
unfolding write_ranges
ranges-Writes [] h = nothing 0
ranges-Writes (r ∷ rs) h =
    more (8 + (8 + 16 * length rs)) _ _ (omega arith)
      (num _ r.gap _ h.0.0 (num _ r.ack_range _ h.0.1 (ranges-Writes rs h.1)))

if_small :
    (b : Bool) (x y : ℕ) → x ≤ varint_max → y ≤ varint_max → (if b then x else y) ≤ varint_max
if_small true x y hx hy = hx
if_small false x y hx hy = hy

ack-Writes :
    (f : AckFrame)
    → IsAdmitted (Frame.ack f)
    → IsWire (Frame.ack f)
    → Writes (64 + 16 * length f.ranges) (write_ack f)
unfolding write_ack write_ecn
ack-Writes f v w =
    more (8 + (8 + (8 + (8 + (8 + (16 * length f.ranges + (8 + (8 + (8 + 0)))))))))
      (64 + 16 * length f.ranges) _ (omega arith)
      (num _ _ _ (if_small f.has_ecn 0x03 0x02 (omega arith) (omega arith)) (
        num _ _ _ w.0 (
          num _ _ _ w.1 (
            num _ _ _ (omega (arith, v.0)) (
              num _ _ _ w.2 (
                >>-Writes _ _ _ _ (ranges-Writes f.ranges w.3) (
                  if-Writes (8 + (8 + (8 + 0))) f.has_ecn _ _
                    (num _ _ _ w.4 (num _ _ _ w.5 (num _ _ _ w.6 skip-Writes))) (nothing _))))))))

-- The room that is checked at once is what the three writes need.
check_cid_room-Writes :
    (n : ℕ) (w : Writer) → Writes (1 + n + 16) w → Writes (1 + n + 16) (check_cid_room n >> w)
unfolding Writes
check_cid_room-Writes n w h c fits room =
    let (out, c', e, m, k) = h c fits room in (out, c', rw (checked n c room, e, ◌>>◌), m, k)
  where
    checked : (n : ℕ) (c : Cursor) → 1 + n + 16 ≤ length c.room → check_cid_room n c ≡ some ([], c)
    checked n c h = unfold check_cid_room in ground arith

conn_id-Writes :
    (f : NewConnectionIdFrame)
    → IsAdmitted (Frame.new_connection_id f)
    → IsWire (Frame.new_connection_id f)
    → Writes 64 (write_new_connection_id f)
unfolding write_new_connection_id
conn_id-Writes f v w =
    let len = f.cid.len in
    rw (within len v.0) (
      more (8 + (8 + (8 + (1 + len + 16)))) 64 _ (omega (arith, v.0)) (
        num _ _ _ (omega arith) (
          num _ _ _ w.0 (
            num _ _ _ w.1 (
              check_cid_room-Writes len _ (
                more (1 + (len + (16 + 0))) (1 + len + 16) _ (omega arith) (
                  >>-Writes _ _ _ _ (put_byte-Writes len) (
                    >>-Writes _ _ _ _
                      (put_data-Writes (some f.cid.bytes) len (omega (arith, v.0)) v.1)
                      (>>-Writes _ _ _ _
                        (put_data-Writes (some f.stateless_reset_token) 16 (omega arith)
                          (omega (arith, v.3)))
                        skip-Writes)))))))))
  where
    within : (n : ℕ) → n ≤ max_cid_len → ltb max_cid_len n ≡ false
    within n h = ground arith

zeros-Writes : (n : ℕ) → 0 < n → n < 2 ^ 62 → Writes n (write_padding n)
unfolding write_padding
zeros-Writes n pos small =
    rw (nonzero n pos)
      (put_data-Writes (some (replicate n 0)) n small (omega (arith, length-replicate {A = ℕ} n 0)))
  where
    nonzero : (n : ℕ) → 0 < n → (n == 0) ≡ false
    nonzero n h = ground arith

writes :
    (f : Frame)
    → IsAdmitted f
    → IsWire f
    → room_for f < 2 ^ 62
    → Writes (room_for f) (write_frame f)
unfolding write_frame write_ping write_reset_stream write_stop_sending write_crypto write_new_token
    write_stream write_max_data write_max_stream_data write_max_streams write_data_blocked
    write_stream_data_blocked write_streams_blocked write_retire_connection_id write_path_challenge
    write_path_response write_connection_close write_handshake_done write_heartbeat
    write_stream_priority write_datagram
writes (Frame.padding n) v w small = zeros-Writes n w small
writes (Frame.ack f) v w small = ack-Writes f v w
writes (Frame.new_connection_id f) v w small = conn_id-Writes f v w
writes (Frame.stream f) v w small =
    more (1 + (8 + (8 + (8 + (f.length + 0))))) (25 + f.length) _ (omega arith) (
      >>-Writes _ _ _ _ (put_byte-Writes _) (
        num _ _ _ (omega (arith, v.id_in)) (
          >>-Writes 8 _ _ _
            (if-Writes 8 f.has_offset _ _ (put_varint-Writes f.offset (omega (arith, v.offset_in)))
              (nothing 8))
            (>>-Writes 8 _ _ _
              (if-Writes 8 f.has_length _ _
                (put_varint-Writes f.length (omega (arith, v.length_in))) (nothing 8))
              (>>-Writes f.length 0 _ _ (tail f.has_length) skip-Writes)))))
  where
    tail : (b : Bool) → Writes f.length (put_data_if f.bytes (if b then f.length else 0))
    tail true = put_data_if-Writes f.bytes f.length (omega (arith, v.length_in)) v.carried
    tail false = unfold put_data_if in nothing f.length
writes (Frame.connection_close f) v w small =
    more (8 + (8 + (8 + (8 + (f.reason_len + 0))))) (32 + f.reason_len) _ (omega arith) (
      num _ _ _ (if_small f.is_app 0x1d 0x1c (omega arith) (omega arith)) (
        num _ _ _ w.0 (
          >>-Writes 8 _ _ _
            (if-Writes 8 f.is_app _ _ (nothing 8) (put_varint-Writes f.frame_type w.1))
            (num _ _ _ (omega (arith, v.0))
              (copied_if f.reason f.reason_len (omega (arith, v.0)) v.1)))))
writes Frame.ping v w small = more (1) (room_for Frame.ping) _ (omega arith) (put_byte-Writes 0x01)
writes (Frame.reset_stream f) v w small =
    more (8 + (8 + (8 + (8 + 0)))) (room_for (Frame.reset_stream f)) _ (omega arith)
      (num _ _ _ (omega arith) (num _ _ _ w.0 (num _ _ _ w.1 (num _ _ _ w.2 (skip-Writes)))))
writes (Frame.stop_sending f) v w small =
    more (8 + (8 + (8 + 0))) (room_for (Frame.stop_sending f)) _ (omega arith)
      (num _ _ _ (omega arith) (num _ _ _ w.0 (num _ _ _ w.1 (skip-Writes))))
writes (Frame.crypto f) v w small =
    more (8 + (8 + (8 + (f.length + 0)))) (room_for (Frame.crypto f)) _ (omega arith) (
      num _ _ _ (omega arith) (
        num _ _ _ w
          (num _ _ _ (omega (arith, v.0)) (copied f.bytes f.length (omega (arith, v.0)) v.1))))
writes (Frame.new_token f) v w small =
    more (8 + (8 + (f.token_len + 0))) (room_for (Frame.new_token f)) _ (omega arith) (
      num _ _ _ (omega arith)
        (num _ _ _ (omega (arith, v.0)) (copied f.token f.token_len (omega (arith, v.0)) v.1)))
writes (Frame.max_data n) v w small =
    more (8 + (8 + 0)) (room_for (Frame.max_data n)) _ (omega arith)
      (num _ _ _ (omega arith) (num _ _ _ w (skip-Writes)))
writes (Frame.max_stream_data f) v w small =
    more (8 + (8 + (8 + 0))) (room_for (Frame.max_stream_data f)) _ (omega arith)
      (num _ _ _ (omega arith) (num _ _ _ w.0 (num _ _ _ w.1 (skip-Writes))))
writes (Frame.max_streams f) v w small =
    more (8 + (8 + 0)) (room_for (Frame.max_streams f)) _ (omega arith) (
      num _ _ _ (if_small f.is_bidi 0x12 0x13 (omega arith) (omega arith))
        (num _ _ _ w skip-Writes))
writes (Frame.data_blocked n) v w small =
    more (8 + (8 + 0)) (room_for (Frame.data_blocked n)) _ (omega arith)
      (num _ _ _ (omega arith) (num _ _ _ w (skip-Writes)))
writes (Frame.stream_data_blocked f) v w small =
    more (8 + (8 + (8 + 0))) (room_for (Frame.stream_data_blocked f)) _ (omega arith)
      (num _ _ _ (omega arith) (num _ _ _ w.0 (num _ _ _ w.1 (skip-Writes))))
writes (Frame.streams_blocked f) v w small =
    more (8 + (8 + 0)) (room_for (Frame.streams_blocked f)) _ (omega arith) (
      num _ _ _ (if_small f.is_bidi 0x16 0x17 (omega arith) (omega arith))
        (num _ _ _ w skip-Writes))
writes (Frame.retire_connection_id n) v w small =
    more (8 + (8 + 0)) (room_for (Frame.retire_connection_id n)) _ (omega arith)
      (num _ _ _ (omega arith) (num _ _ _ w (skip-Writes)))
writes (Frame.path_challenge b) v w small =
    more (8 + (8 + 0)) (room_for (Frame.path_challenge b)) _ (omega arith) (
      num _ _ _ (omega arith) (
        >>-Writes 8 0 _ _ (put_data-Writes (some b) 8 (omega arith) (omega (arith, v)))
          skip-Writes))
writes (Frame.path_response b) v w small =
    more (8 + (8 + 0)) (room_for (Frame.path_response b)) _ (omega arith) (
      num _ _ _ (omega arith) (
        >>-Writes 8 0 _ _ (put_data-Writes (some b) 8 (omega arith) (omega (arith, v)))
          skip-Writes))
writes Frame.handshake_done v w small =
    more (8 + 0) (room_for Frame.handshake_done) _ (omega arith)
      (num _ _ _ (omega arith) (skip-Writes))
writes (Frame.heartbeat n) v w small =
    more (8 + (8 + 0)) (room_for (Frame.heartbeat n)) _ (omega arith)
      (num _ _ _ (omega arith) (num _ _ _ w (skip-Writes)))
writes (Frame.stream_priority f) v w small =
    more (8 + (8 + (1 + 0))) (room_for (Frame.stream_priority f)) _ (omega arith) (
      num _ _ _ (omega arith)
        (num _ _ _ w (>>-Writes 1 0 _ _ (put_byte-Writes f.priority) skip-Writes)))
writes (Frame.datagram f) v w small =
    more (8 + (8 + (f.length + 0))) (room_for (Frame.datagram f)) _ (omega arith) (
      num _ _ _ (omega arith)
        (num _ _ _ (omega (arith, v.0)) (copied_if f.bytes f.length (omega (arith, v.0)) v.1)))

-- In a buffer with 8 bytes of room for each number of the frame, and for the bytes that it carries
-- (`room_for`; fewer than 2^62 bytes, the buffer fewer than 2^63), the encoder of a frame within the
-- limits, whose numbers have varints and whose padding is not empty, succeeds. The decoder reads the same
-- frame back from what it wrote and leaves what follows, provided that a STREAM frame has its length
-- (`has_length`: without it the encoder writes no data, and the decoder takes all that follows) and that no
-- zero byte follows padding.
pub decode-write_frame_total :
    (f : Frame) (buf rest : List ℕ)
    → IsAdmitted f
    → IsWire f
    → Delimited f rest
    → length buf < 2 ^ 63
    → room_for f ≤ length buf
    → room_for f < 2 ^ 62
    → (out : List ℕ) × (run (write_frame f) buf ≡ some out)
      × (decode (out ++ rest) ≡ some (f, rest))
decode-write_frame_total f buf rest v w d fits room small =
    let (out, e) = run_total (room_for f) (write_frame f) buf (writes f v w small) fits room in
    (out, e, decode-write_frame f buf out rest v d fits e)
