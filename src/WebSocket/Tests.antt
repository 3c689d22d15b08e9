-- ===== src/WebSocket/Tests.antt =====
-- WebSocket frames on concrete buffers.
use nxp.Prelude.{
  ℕ, ◌-◌, ◌^◌, ◌≡◌, refl, arith, List, [], ◌∷◌, ◌++◌, none, some, true, false, length,
}
use nxp.WebSocket.{
  WsFrame, apply_mask, mask_if, first_byte, length_bytes, header, encode, get_length, get_extended,
  get_key, get_payload, read_rest, read_frame, decode,
}
use nxp.WebSocket.RoundTrip.{received, decode-encode}
use nxp.Codec.{get_byte, get_bytes}
use nxp.Packet.Decode.{pn_value, position}

abbrev hello : WsFrame
hello = record {
  opcode = 1;
  fin = true;
  masked = true;
  mask_key = 0x37 ∷ 0xfa ∷ 0x21 ∷ 0x3d ∷ [];
  payload_len = 5;
  payload = some (0x48 ∷ 0x65 ∷ 0x6c ∷ 0x6c ∷ 0x6f ∷ []);
  frame_total = 0;
}

abbrev hello_out : List ℕ
hello_out = 0x81 ∷ 0x85 ∷ 0x37 ∷ 0xfa ∷ 0x21 ∷ 0x3d ∷ 0x7f ∷ 0x9f ∷ 0x4d ∷ 0x51 ∷ 0x58 ∷ []

hello_encoded : encode hello 64 ≡ some hello_out
unfolding encode header first_byte length_bytes mask_if apply_mask
hello_encoded = refl

abbrev empty : WsFrame
empty = record {
  opcode = 0;
  fin = false;
  masked = false;
  mask_key = [];
  payload_len = 0;
  payload = none;
  frame_total = 0;
}

decode-encode_example :
    decode empty (hello_out ++ (0x88 ∷ [])) ≡ some (received hello empty (length hello_out))
decode-encode_example =
    decode-encode hello empty (0x48 ∷ 0x65 ∷ 0x6c ∷ 0x6c ∷ 0x6f ∷ []) hello_out (0x88 ∷ []) 64
      (refl, refl, omega arith, refl) hello_encoded (omega arith)

-- The header is stored in a buffer without room for it.
no_room_for_header : encode empty 0 ≡ some (0 ∷ 0 ∷ [])
unfolding encode header first_byte length_bytes
no_room_for_header = refl

-- A length near 2^64: the sum with the position wraps around, and a frame of ten bytes passes for one
-- with a payload of 2^64 - 1 bytes.
abbrev huge : List ℕ
huge = 0x82 ∷ 0x7f ∷ 0xff ∷ 0xff ∷ 0xff ∷ 0xff ∷ 0xff ∷ 0xff ∷ 0xff ∷ 0xff ∷ []

huge_accepted :
    decode empty huge
    ≡ some (record {
      opcode = 2;
      fin = true;
      masked = false;
      mask_key = [];
      payload_len = 2 ^ 64 - 1;
      payload = some [];
      frame_total = 9;
    })
unfolding decode read_frame read_rest get_length get_extended get_key get_payload get_byte get_bytes
    pn_value position mask_if
huge_accepted = refl
