-- ===== src/Packet.antt =====
-- Packet headers: src/core/packet.c and src/core/packet_internal.h, and the two 32-bit functions
-- of src/platform/platform_endian.h that they call.
-- `Number` is about packet numbers; the headers are here, in `Encode` and in `Decode`. Buffers are
-- lists of bytes, a `size_t` that no sum of sizes can wrap is a number.
pub mod Number
pub mod Encode
pub mod Decode
pub mod RoundTrip
mod Tests
use nxp.Prelude.{ℕ, ◌%◌, List, [], ◌∷◌, Option, none, some, Bool, not, ◌==◌, if◌then◌else◌}
use nxp.Prelude.Bits.{shr, shl}
use nxp.Prelude.Word.{u8_mod, u32_mod}
use nxp.Frame.Types.{ConnId}
use Prim.Native.Nat.{bit_and, bit_or}

-- `NXP_MAX_TOKEN_LEN` and `NXP_MAX_PAYLOAD_LEN`
abbrev pub max_token_len : ℕ
max_token_len = 1024

abbrev pub max_payload_len : ℕ
max_payload_len = 65536

pub data PacketType : Type 0 where
  initial : PacketType
  handshake : PacketType
  retry : PacketType
  zero_rtt : PacketType
  short : PacketType

abbrev pub is_initial : PacketType → Bool
is_initial PacketType.initial = Bool.true
is_initial _ = Bool.false

abbrev pub is_retry : PacketType → Bool
is_retry PacketType.retry = Bool.true
is_retry _ = Bool.false

-- `nxp_pkt_long_header`; `token` is a pointer, null for none.
pub record LongHeader : Type 0 where
  pub type : PacketType
  pub version : ℕ
  pub dcid : ConnId
  pub scid : ConnId
  pub token : Option (List ℕ)
  pub token_len : ℕ
  pub payload_len : ℕ
  pub pkt_num : ℕ
  pub pkt_num_len : ℕ
  pub header_len : ℕ
  pub pkt_num_offset : ℕ

-- `nxp_pkt_short_header`
pub record ShortHeader : Type 0 where
  pub dcid : ConnId
  pub spin_bit : Bool
  pub key_phase : Bool
  pub pkt_num : ℕ
  pub pkt_num_len : ℕ
  pub header_len : ℕ
  pub pkt_num_offset : ℕ

-- `nxp_pkt_is_long_header`
unfoldable pub is_long_header : ℕ → Bool
is_long_header first_byte = not (bit_and first_byte 0x80 == 0)

-- `nxp_write_u32_be`
unfoldable pub u32_bytes : ℕ → List ℕ
u32_bytes val =
    (shr val 24 % u8_mod) ∷ (shr val 16 % u8_mod) ∷ (shr val 8 % u8_mod) ∷ (val % u8_mod) ∷ []

-- `nxp_read_u32_be`
unfoldable pub u32_be : ℕ → ℕ → ℕ → ℕ → ℕ
u32_be b0 b1 b2 b3 = bit_or (bit_or (bit_or (shl b0 24) (shl b1 16)) (shl b2 8)) b3
