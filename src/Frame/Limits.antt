-- ===== src/Frame/Limits.antt =====
-- What `nxp_frame_decode` guarantees of any input: the frame is within the limits, and the bytes
-- taken are a part of the input.
use nxp.Prelude.{
  ℕ, zero, suc, ◌+◌, ◌-◌, ◌≤◌, ◌<◌, ◌^◌, ◌≡◌, ◌∙◌, refl, sym, ap, subst, ==→eq, arith, List, [],
  ◌∷◌, ◌++◌, some, Bool, true, false, not, length, take, take-append, length-append, replicate, All,
  Bool-cases, inl, inr, ◌==◌, if_fact, unless_fact,
}
use nxp.Prelude.Word.{IsByte}
use nxp.Codec.{Parser, ◌>>=◌, pure, get_varint}
use nxp.Codec.Takes.{
  Takes, pure-Takes, >>=-Takes, reject_if-Takes, get_varint-Takes, get_byte-Takes, get_bytes-Takes,
  get_data-Takes, choose-Takes, weaken, promise,
}
use nxp.Frame.Types.{Frame, is_stream, max_cid_len}
use nxp.Frame.Decode.{
  decode, read_body, read_padding, count_padding, read_stream, read_stream_fields, get_if,
  get_stream_length, remaining, read_ranges, read_ack, read_reset_stream, read_stop_sending,
  read_crypto, read_new_token, read_max_stream_data, read_max_streams, read_stream_data_blocked,
  read_streams_blocked, check_bytes, conn_id, read_new_connection_id, read_connection_close,
  read_stream_priority, read_datagram, read_number, read_path, unknown,
}
use nxp.Frame.Admitted.{IsAdmitted}

-- One number, and then the rest of the frame.
num :
    (k : ℕ) (f : ℕ → Parser Frame)
    → ((v : ℕ) → Takes k (f v) IsAdmitted)
    → Takes 1 (get_varint >>= f) IsAdmitted
num k f h = >>=-Takes _ _ 1 k get_varint f get_varint-Takes (λ v small. h v)

done : (f : Frame) → IsAdmitted f → Takes 0 (pure f) IsAdmitted
done f h = pure-Takes IsAdmitted f h

reset_stream-Takes : Takes 1 read_reset_stream IsAdmitted
unfolding read_reset_stream
reset_stream-Takes = num _ _ (λ a. num _ _ (λ b. num _ _ (λ c. done _ tt)))

stop_sending-Takes : Takes 1 read_stop_sending IsAdmitted
unfolding read_stop_sending
stop_sending-Takes = num _ _ (λ a. num _ _ (λ b. done _ tt))

crypto-Takes : Takes 1 read_crypto IsAdmitted
unfolding read_crypto
crypto-Takes = num _ _ (λ offset. num _ _ (λ len.
    reject_if-Takes _ _ _ len _
      (λ small. >>=-Takes _ _ _ _ _ _ (get_data-Takes len) (λ src ok. done _ (small, ok)))))

new_token-Takes : Takes 1 read_new_token IsAdmitted
unfolding read_new_token
new_token-Takes = num _ _ (λ len.
    reject_if-Takes _ _ _ len _
      (λ small. >>=-Takes _ _ _ _ _ _ (get_data-Takes len) (λ src ok. done _ (small, ok))))

datagram-Takes : Takes 1 read_datagram IsAdmitted
unfolding read_datagram
datagram-Takes = num _ _ (λ len.
    reject_if-Takes _ _ _ len _
      (λ small. >>=-Takes _ _ _ _ _ _ (get_data-Takes len) (λ src ok. done _ (small, ok))))

max_stream_data-Takes : Takes 1 read_max_stream_data IsAdmitted
unfolding read_max_stream_data
max_stream_data-Takes = num _ _ (λ a. num _ _ (λ b. done _ tt))

stream_data_blocked-Takes : Takes 1 read_stream_data_blocked IsAdmitted
unfolding read_stream_data_blocked
stream_data_blocked-Takes = num _ _ (λ a. num _ _ (λ b. done _ tt))

max_streams-Takes : (bidi : Bool) → Takes 1 (read_max_streams bidi) IsAdmitted
unfolding read_max_streams
max_streams-Takes bidi = num _ _ (λ a. done _ tt)

streams_blocked-Takes : (bidi : Bool) → Takes 1 (read_streams_blocked bidi) IsAdmitted
unfolding read_streams_blocked
streams_blocked-Takes bidi = num _ _ (λ a. done _ tt)

stream_priority-Takes : Takes 1 read_stream_priority IsAdmitted
unfolding read_stream_priority
stream_priority-Takes = num _ _ (λ a. >>=-Takes _ _ _ _ _ _ get_byte-Takes (λ b h. done _ tt))

-- A number that is absent is 0.
get_if-Takes : (there : Bool) → Takes 0 (get_if there) (λ v. there ≡ false → v ≡ 0)
unfolding get_if
get_if-Takes true = weaken _ 1 _ (promise _ _ _ _ (λ v h e. absurd (cc e)) get_varint-Takes)
get_if-Takes false = pure-Takes _ 0 (λ e. refl)

connection_close-Takes : (app : Bool) → Takes 1 (read_connection_close app) IsAdmitted
unfolding read_connection_close
connection_close-Takes app = num _ _ (λ code.
    >>=-Takes _ _ _ _ _ _ (get_if-Takes (not app)) (λ type absent. num _ _ (λ len.
      reject_if-Takes _ _ _ len _ (λ small.
        >>=-Takes _ _ _ _ _ _ (get_data-Takes len)
          (λ src ok. done _ (small, ok, if_fact app (λ e. absent (ground (arith, e)))))))))

ranges-Takes : (n : ℕ) → Takes 0 (read_ranges n) (λ rs. length rs ≡ n)
unfolding read_ranges
ranges-Takes zero = pure-Takes _ [] refl
ranges-Takes (suc n) = weaken _ 1 _ (
    >>=-Takes _ _ 1 1 _ _ get_varint-Takes (λ gap h.
      >>=-Takes _ _ 1 0 _ _ get_varint-Takes
        (λ range h2. >>=-Takes _ _ 0 0 _ _ (ranges-Takes n) (λ rs e. pure-Takes _ _ (ap suc e)))))

ack-Takes : (ecn : Bool) → Takes 1 (read_ack ecn) IsAdmitted
unfolding read_ack
ack-Takes ecn = num _ _ (λ largest. num _ _ (λ delay. num _ _ (λ count.
    reject_if-Takes _ _ _ count _ (λ few. num _ _ (λ first.
      >>=-Takes _ _ _ _ _ _ (ranges-Takes count) (λ rs e.
        >>=-Takes _ _ _ _ _ _ (get_if-Takes ecn) (λ a ha.
          >>=-Takes _ _ _ _ _ _ (get_if-Takes ecn) (λ b hb.
            >>=-Takes _ _ _ _ _ _ (get_if-Takes ecn)
              (λ c hc. done _ (omega (arith, e), unless_fact ecn (λ n. (ha n, hb n, hc n))))))))))))

check_bytes-Takes : (n : ℕ) → Takes 0 (check_bytes n) (λ _. Unit {0})
unfolding check_bytes Takes
check_bytes-Takes n l a r bytes e = ([], ground (arith, e), omega arith, tt)

-- The identifier is its bytes, padded by zeros.
conn_id-take :
    (len : ℕ) (bytes : List ℕ)
    → length bytes ≡ len
    → (len ≤ length (conn_id len bytes).bytes)
      × (conn_id len (take len (conn_id len bytes).bytes) ≡ conn_id len bytes)
unfolding conn_id
conn_id-take len bytes e =
    let zeros : List ℕ = replicate (max_cid_len - len) 0 in
    (
      omega (arith, length-append bytes zeros, e),
      ap (λ (b : List ℕ). conn_id len b) (take-append len bytes zeros (sym e)),
    )

new_connection_id-Takes : Takes 1 read_new_connection_id IsAdmitted
unfolding read_new_connection_id conn_id
new_connection_id-Takes = num _ _ (λ seq. num _ _ (λ retire.
    >>=-Takes _ _ _ _ _ _ get_byte-Takes (λ len h. reject_if-Takes _ _ _ len _ (λ small.
      >>=-Takes _ _ _ _ _ _ (check_bytes-Takes (len + 16)) (λ _ _.
        >>=-Takes _ _ _ _ _ _ (get_bytes-Takes len) (λ cid e.
          >>=-Takes _ _ _ _ _ _ (get_bytes-Takes 16) (λ token e2.
            done _ (small, (conn_id-take len cid e).0, (conn_id-take len cid e).1, e2))))))))

-- A STREAM frame behind its type byte.
length-Takes : (there : Bool) → Takes 0 (get_stream_length there) (λ v. Unit {0})
unfolding get_stream_length
length-Takes true = weaken _ 1 _ (promise _ _ _ _ (λ v h. tt) get_varint-Takes)
length-Takes false = remaining-Takes
  where
    remaining-Takes : Takes 0 remaining (λ v. Unit {0})
    remaining-Takes =
        unfold remaining Takes in λ l a r bytes e. ([], ground (arith, e), omega arith, tt)

stream_fields-Takes : (off len fin : Bool) → Takes 1 (read_stream_fields off len fin) IsAdmitted
unfolding read_stream_fields
stream_fields-Takes off len fin = num _ _ (λ id. reject_if-Takes _ _ _ id _ (λ id_in.
    >>=-Takes _ _ _ _ _ _ (get_if-Takes off) (λ offset absent.
      reject_if-Takes _ _ _ offset _ (λ offset_in. >>=-Takes _ _ _ _ _ _ (length-Takes len) (λ n _.
        reject_if-Takes _ _ _ n _ (λ length_in. >>=-Takes _ _ _ _ _ _ (get_data-Takes n) (λ src ok.
          done _ (record {
            id_in = id_in;
            offset_in = offset_in;
            offset_absent = unless_fact off absent;
            length_in = length_in;
            carried = ok;
          }))))))))

number :
    (make : ℕ → Frame) → ((n : ℕ) → IsAdmitted (make n)) → Takes 0 (read_number make) IsAdmitted
number make h = weaken _ 1 _ (num _ _ (λ n. done (make n) (h n)))

path :
    (make : List ℕ → Frame)
    → ((b : List ℕ) → length b ≡ 8 → IsAdmitted (make b))
    → Takes 0 (read_path make) IsAdmitted
path make h = >>=-Takes _ _ _ _ _ _ (get_bytes-Takes 8) (λ b e. done (make b) (h b e))

unknown-Takes : Takes 0 unknown IsAdmitted
unfolding Takes
unknown-Takes l a r bytes e = absurd (ground (arith, e))

body-Takes : (t : ℕ) → Takes 0 (read_body t) IsAdmitted
unfolding read_body
body-Takes t = choose-Takes _ _ (t == 0x01) _ _ (done _ tt) (
    choose-Takes _ _ (t == 0x02) _ _ (weaken _ 1 _ (ack-Takes false)) (
      choose-Takes _ _ (t == 0x03) _ _ (weaken _ 1 _ (ack-Takes true)) (
        choose-Takes _ _ (t == 0x04) _ _ (weaken _ 1 _ reset_stream-Takes) (
          choose-Takes _ _ (t == 0x05) _ _ (weaken _ 1 _ stop_sending-Takes) (
            choose-Takes _ _ (t == 0x06) _ _ (weaken _ 1 _ crypto-Takes) (
              choose-Takes _ _ (t == 0x07) _ _ (weaken _ 1 _ new_token-Takes) (
                choose-Takes _ _ (t == 0x10) _ _ (number Frame.max_data (λ n. tt)) (
                  choose-Takes _ _ (t == 0x11) _ _ (weaken _ 1 _ max_stream_data-Takes) (
                    choose-Takes _ _ (t == 0x12) _ _ (weaken _ 1 _ (max_streams-Takes true)) (
                      choose-Takes _ _ (t == 0x13) _ _ (weaken _ 1 _ (max_streams-Takes false)) (
                        choose-Takes _ _ (t == 0x14) _ _ (number Frame.data_blocked (λ n. tt)) (
                          choose-Takes _ _ (t == 0x15) _ _ (weaken _ 1 _ stream_data_blocked-Takes)
                            (choose-Takes _ _ (t == 0x16) _ _
                              (weaken _ 1 _ (streams_blocked-Takes true))
                              (choose-Takes _ _ (t == 0x17) _ _
                                (weaken _ 1 _ (streams_blocked-Takes false))
                                (choose-Takes _ _ (t == 0x18) _ _
                                  (weaken _ 1 _ new_connection_id-Takes)
                                  (choose-Takes _ _ (t == 0x19) _ _
                                    (number Frame.retire_connection_id (λ n. tt))
                                    (choose-Takes _ _ (t == 0x1a) _ _
                                      (path Frame.path_challenge (λ b e. e))
                                      (choose-Takes _ _ (t == 0x1b) _ _
                                        (path Frame.path_response (λ b e. e))
                                        (choose-Takes _ _ (t == 0x1c) _ _
                                          (weaken _ 1 _ (connection_close-Takes false))
                                          (choose-Takes _ _ (t == 0x1d) _ _
                                            (weaken _ 1 _ (connection_close-Takes true))
                                            (choose-Takes _ _ (t == 0x1e) _ _ (done _ tt) (
                                              choose-Takes _ _ (t == 0x20) _ _
                                                (number Frame.heartbeat (λ n. tt))
                                                (choose-Takes _ _ (t == 0x21) _ _
                                                  (weaken _ 1 _ stream_priority-Takes)
                                                  (choose-Takes _ _ (t == 0x22) _ _
                                                    (weaken _ 1 _ datagram-Takes)
                                                    (unknown-Takes)))))))))))))))))))))))))

count_padding-split :
    (l : List ℕ) → (u : List ℕ) × (l ≡ u ++ (count_padding l).1) × (length u ≡ (count_padding l).0)
unfolding count_padding
count_padding-split [] = ([], refl, refl)
count_padding-split (b ∷ l) = elim (Bool-cases (b == 0)) [
  | inl zero_byte ↦
      let (u, s, n) = count_padding-split l in
      rw zero_byte (b ∷ u, ap (λ (t : List ℕ). b ∷ t) s, omega (arith, n))
  | inr other ↦ rw other ([], refl, refl)
]

padding_case :
    (l : List ℕ) (b : ℕ) (f : Frame) (r : List ℕ)
    → b ≡ 0
    → length (b ∷ l) < 2 ^ 63
    → read_padding (b ∷ l) ≡ some (f, r)
    → (u : List ℕ) × (b ∷ l ≡ u ++ r) × (1 ≤ length u) × IsAdmitted f
unfolding read_padding
padding_case l b f r zero_byte fits e =
    let (u, s, n) = count_padding-split (b ∷ l) in
    let left : (count_padding (b ∷ l)).1 ≡ r = ground (arith, e) in
    let frame : Frame.padding (count_padding (b ∷ l)).0 ≡ f = ground (arith, e) in
    let total = ap length s ∙ length-append u (count_padding (b ∷ l)).1 in
    (
      u,
      rw left at s,
      omega (arith, n, positive l b zero_byte),
      subst IsAdmitted frame (omega (arith, n, total)),
    )
  where
    positive : (l : List ℕ) (b : ℕ) → b ≡ 0 → 1 ≤ (count_padding (b ∷ l)).0
    positive l b h = unfold count_padding in ground arith

stream_case :
    (b : ℕ) (l : List ℕ) (f : Frame) (r : List ℕ)
    → All IsByte l
    → read_stream b l ≡ some (f, r)
    → (u : List ℕ) × (b ∷ l ≡ u ++ r) × (1 ≤ length u) × IsAdmitted f
unfolding read_stream Takes
stream_case b l f r bytes e =
    let (u, s, n, h) = stream_fields-Takes _ _ _ l f r bytes e in
    (b ∷ u, ap (λ (t : List ℕ). b ∷ t) s, omega arith, h)

other_case : Takes 1 (get_varint >>= λ t. read_body t) IsAdmitted
other_case = num 0 _ body-Takes

-- On any bytes (fewer than 2^63), a frame that `nxp_frame_decode` returns is within the limits of
-- the frame engine, with null pointers for empty fields and pointers to exactly the stated number of
-- bytes for others, and the decoder has taken at least one byte from the front of its input.
pub decode-IsAdmitted :
    (l : List ℕ) (f : Frame) (r : List ℕ)
    → All IsByte l
    → length l < 2 ^ 63
    → decode l ≡ some (f, r)
    → (u : List ℕ) × (l ≡ u ++ r) × (1 ≤ length u) × IsAdmitted f
unfolding decode Takes
decode-IsAdmitted [] f r bytes fits e = absurd (ground (arith, e))
decode-IsAdmitted (b ∷ l) f r bytes fits e = elim (Bool-cases (b == 0)) [
  | inl zero_byte ↦ padding_case l b f r (==→eq b 0 zero_byte) fits (rw zero_byte at e)
  | inr no_padding ↦ elim (Bool-cases (is_stream b)) [
    | inl str ↦ stream_case b l f r bytes.1 (rw (no_padding, str) at e)
    | inr other ↦ other_case (b ∷ l) f r bytes (rw (no_padding, other) at e)
  ]
]
