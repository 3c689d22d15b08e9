-- ===== src/Frame/Tests.antt =====
-- Runs of the frame engine, and its theorems at concrete inputs.
use nxp.Prelude.{
  ℕ, ◌≤◌, ◌≡◌, refl, inl, arith, List, [], ◌∷◌, ◌++◌, some, none, true, length, replicate,
}
use nxp.Codec.{
  run, put_varint, put_byte, put_data, source_bytes, advance, get_varint, get_bytes, get_data,
}
use nxp.Varint
use nxp.Frame.Types.{Frame, StreamFrame, is_stream}
use nxp.Frame.Encode.{write_frame, write_stream, stream_type_byte, put_data_if}
use nxp.Frame.Decode.{
  decode, read_body, read_crypto, read_stream, read_stream_fields, get_if, get_stream_length,
}
use nxp.Frame.Admitted.{IsAdmitted}
use nxp.Frame.Limits.{decode-IsAdmitted}
use nxp.Frame.Bounds.{length-write_frame}
use nxp.Frame.Total.{decode-write_frame_total}

-- Five bytes at offset 100 of stream 4, with FIN.
abbrev hello : StreamFrame
hello = record {
  stream_id = 4;
  offset = 100;
  length = 5;
  has_offset = true;
  has_length = true;
  fin = true;
  bytes = some (0x68 ∷ 0x65 ∷ 0x6c ∷ 0x6c ∷ 0x6f ∷ []);
}

abbrev buffer : List ℕ
buffer = replicate 40 0xaa

abbrev wire : List ℕ
wire = 0x0f ∷ 0x04 ∷ 0x40 ∷ 0x64 ∷ 0x05 ∷ 0x68 ∷ 0x65 ∷ 0x6c ∷ 0x6c ∷ 0x6f ∷ []

run-hello : run (write_frame (Frame.stream hello)) buffer ≡ some wire
unfolding run write_frame write_stream stream_type_byte put_varint put_byte put_data source_bytes
    advance put_data_if Varint.encode Varint.head_byte Varint.low_byte
run-hello = refl

decode-wire : decode (wire ++ 1 ∷ []) ≡ some (Frame.stream hello, 1 ∷ [])
unfolding decode is_stream read_stream read_stream_fields get_varint get_if get_stream_length
    get_data get_bytes Varint.decode Varint.decode_2
decode-wire = refl

-- A CRYPTO frame that claims more data than the limit is refused.
decode_long_crypto : decode (0x06 ∷ 0x00 ∷ 0x80 ∷ 0x00 ∷ 0x40 ∷ 0x01 ∷ 1 ∷ []) ≡ none
unfolding decode is_stream read_body read_crypto get_varint Varint.decode Varint.decode_4
decode_long_crypto = refl

decode-write_frame_total_example :
    (out : List ℕ) × (run (write_frame (Frame.stream hello)) buffer ≡ some out)
    × (decode (out ++ 1 ∷ []) ≡ some (Frame.stream hello, 1 ∷ []))
decode-write_frame_total_example =
    decode-write_frame_total (Frame.stream hello) buffer (1 ∷ [])
      (record {
        id_in = omega arith;
        offset_in = omega arith;
        offset_absent = inl refl;
        length_in = omega arith;
        carried = omega arith;
      })
      tt refl (omega arith) (omega arith) (omega arith)

decode-IsAdmitted_example :
    (u : List ℕ) × (wire ++ 1 ∷ [] ≡ u ++ 1 ∷ []) × (1 ≤ length u) × IsAdmitted (Frame.stream hello)
decode-IsAdmitted_example =
    decode-IsAdmitted (wire ++ 1 ∷ []) (Frame.stream hello) (1 ∷ []) (omega arith) (omega arith)
      decode-wire

length-write_frame_example : length wire ≤ length buffer
length-write_frame_example =
    length-write_frame (Frame.stream hello) buffer wire (omega arith) (omega arith) run-hello
