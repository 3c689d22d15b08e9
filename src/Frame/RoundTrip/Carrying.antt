-- ===== src/Frame/RoundTrip/Carrying.antt =====
-- Round trips of the frames that carry bytes.
use nxp.Prelude.{
  ℕ, ◌≤◌, ◌≡◌, refl, arith, List, Option, some, Bool, true, false, length, take_all, if◌then◌else◌,
}
use nxp.Codec.{get_bytes, put_data, put_varint, pure, ◌>>=◌, ◌>>◌, skip}
use nxp.Codec.Laws.{Reads, >>-Reads, put_data-Reads, get_data-Reads, pure-Reads, Carries}
use nxp.Frame.Types.{
  Frame, CryptoFrame, NewTokenFrame, ConnectionCloseFrame, DatagramFrame, is_stream,
  max_crypto_frame_data, max_token_len, max_close_reason_len, max_datagram_len,
}
use nxp.Frame.Encode.{
  put_data_if, write_crypto, write_new_token, write_datagram, write_connection_close,
  write_path_challenge, write_path_response,
}
use nxp.Frame.Decode.{
  decode, read_body, read_crypto, read_new_token, read_datagram, read_connection_close,
}
use nxp.Frame.RoundTrip.Common.{
  type-Reads, varint->>-Reads, reject_if-Reads, put_data_if-Reads, get_if-Reads,
}

pub crypto-Reads :
    (f : CryptoFrame)
    → f.length ≤ max_crypto_frame_data
    → Carries f.length f.bytes
    → Reads decode (write_crypto f) (Frame.crypto f)
unfolding write_crypto read_body read_crypto is_stream
crypto-Reads f h carried = type-Reads 0x06 _ _ (omega arith) (omega arith) refl (
    varint->>-Reads _ _ _ _ (
      varint->>-Reads _ _ _ _ (
        reject_if-Reads _ _ _ _ _ h (
          >>-Reads _ _ _ _ _ _ (get_data-Reads f.bytes f.length (omega arith) carried)
            (pure-Reads _)))))

pub new_token-Reads :
    (f : NewTokenFrame)
    → f.token_len ≤ max_token_len
    → Carries f.token_len f.token
    → Reads decode (write_new_token f) (Frame.new_token f)
unfolding write_new_token read_body read_new_token is_stream
new_token-Reads f h carried = type-Reads 0x07 _ _ (omega arith) (omega arith) refl (
    varint->>-Reads _ _ _ _ (
      reject_if-Reads _ _ _ _ _ h (
        >>-Reads _ _ _ _ _ _ (get_data-Reads f.token f.token_len (omega arith) carried)
          (pure-Reads _))))

pub datagram-Reads :
    (f : DatagramFrame)
    → f.length ≤ max_datagram_len
    → Carries f.length f.bytes
    → Reads decode (write_datagram f) (Frame.datagram f)
unfolding write_datagram read_body read_datagram is_stream
datagram-Reads f h carried = type-Reads 0x22 _ _ (omega arith) (omega arith) refl (
    varint->>-Reads _ _ _ _ (
      reject_if-Reads _ _ _ _ _ h (
        >>-Reads _ _ _ _ _ _ (put_data_if-Reads f.bytes f.length (omega arith) carried)
          (pure-Reads _))))

path-Reads :
    (bytes : List ℕ) (make : List ℕ → Frame)
    → length bytes ≡ 8
    → Reads (do b ← get_bytes 8; pure (make b)) (put_data (some bytes) 8 >> skip) (make bytes)
path-Reads bytes make h =
    >>-Reads _ _ bytes _ _ _
      (rw (take_all 8 bytes (omega arith)) at (put_data-Reads bytes 8 (omega arith) (omega arith)))
      (pure-Reads (make bytes))

pub path_challenge-Reads :
    (bytes : List ℕ)
    → length bytes ≡ 8
    → Reads decode (write_path_challenge bytes) (Frame.path_challenge bytes)
unfolding write_path_challenge read_body is_stream
path_challenge-Reads bytes h =
    type-Reads 0x1a _ _ (omega arith) (omega arith) refl (path-Reads bytes Frame.path_challenge h)

pub path_response-Reads :
    (bytes : List ℕ)
    → length bytes ≡ 8
    → Reads decode (write_path_response bytes) (Frame.path_response bytes)
unfolding write_path_response read_body is_stream
path_response-Reads bytes h =
    type-Reads 0x1b _ _ (omega arith) (omega arith) refl (path-Reads bytes Frame.path_response h)

close_body-Reads :
    (code type len : ℕ) (reason : Option (List ℕ)) (app : Bool)
    → len ≤ max_close_reason_len
    → Carries len reason
    → (app ≡ true → type ≡ 0)
    → let f : ConnectionCloseFrame = record {
      error_code = code;
      frame_type = type;
      reason_len = len;
      reason = reason;
      is_app = app;
    } in
      Reads
        (read_connection_close app)
        (put_varint code
          >> (if app then skip else put_varint type)
          >> put_varint len
          >> put_data_if reason len
          >> skip)
        (Frame.connection_close f)
unfolding read_connection_close
close_body-Reads code type len reason true h carried zeroed = varint->>-Reads _ _ _ _ (
    >>-Reads _ _ _ _ _ _ (get_if-Reads false type (λ e. zeroed refl)) (
      varint->>-Reads _ _ _ _ (
        reject_if-Reads _ _ _ _ _ h (
          >>-Reads _ _ _ _ _ _ (put_data_if-Reads reason len (omega arith) carried)
            (pure-Reads _)))))
close_body-Reads code type len reason false h carried zeroed = varint->>-Reads _ _ _ _ (
    >>-Reads _ _ _ _ _ _ (get_if-Reads true type (λ e. absurd (cc e))) (
      varint->>-Reads _ _ _ _ (
        reject_if-Reads _ _ _ _ _ h (
          >>-Reads _ _ _ _ _ _ (put_data_if-Reads reason len (omega arith) carried)
            (pure-Reads _)))))

close-Reads :
    (code type len : ℕ) (reason : Option (List ℕ)) (app : Bool)
    → len ≤ max_close_reason_len
    → Carries len reason
    → (app ≡ true → type ≡ 0)
    → let f : ConnectionCloseFrame = record {
      error_code = code;
      frame_type = type;
      reason_len = len;
      reason = reason;
      is_app = app;
    } in
      Reads decode (write_connection_close f) (Frame.connection_close f)
unfolding write_connection_close read_body is_stream
close-Reads code type len reason true h carried zeroed =
    type-Reads 0x1d _ _ (omega arith) (omega arith) refl
      (close_body-Reads code type len reason true h carried zeroed)
close-Reads code type len reason false h carried zeroed =
    type-Reads 0x1c _ _ (omega arith) (omega arith) refl
      (close_body-Reads code type len reason false h carried zeroed)

pub connection_close-Reads :
    (f : ConnectionCloseFrame)
    → f.reason_len ≤ max_close_reason_len
    → Carries f.reason_len f.reason
    → (f.is_app ≡ true → f.frame_type ≡ 0)
    → Reads decode (write_connection_close f) (Frame.connection_close f)
connection_close-Reads f h carried zeroed =
    close-Reads f.error_code f.frame_type f.reason_len f.reason f.is_app h carried zeroed
