-- ===== src/Packet/RoundTrip/Long/Token.antt =====
-- The token, of Initial packets only.
use nxp.Prelude.{
  ℕ, ◌+◌, ◌≤◌, ◌≡◌, refl, arith, [], ◌++◌, none, Bool, true, false, length, length-append,
  if◌then◌else◌,
}
use nxp.Codec.{pure}
use nxp.Codec.Laws.{Carries}
use nxp.Varint.{varint_len}
use nxp.Packet.{LongHeader, is_initial, max_token_len}
use nxp.Packet.Encode.{token_bytes, varint_bytes, token_data}
use nxp.Packet.Decode.{Token, get_token, get_token_if}
use nxp.Packet.RoundTrip.Spells.{Spells, pure-Spells, >>=-Spells, reject_if-Spells, within}
use nxp.Packet.RoundTrip.Fields.{
  get_varint-Spells, get_data-Spells, unit-right, varint_bytes-some, length-token_data,
}

-- What a receiver gets of the token.
abbrev pub received_token : LongHeader → Token
received_token hdr =
    if is_initial hdr.type
    then record { token_len = hdr.token_len; token = hdr.token }
    else record { token_len = 0; token = none }

-- A token that is there whole, and that the decoder accepts.
abbrev pub HasToken : LongHeader → Type 0
HasToken hdr = (hdr.token_len ≤ max_token_len) × Carries hdr.token_len hdr.token

abbrev pub token_extent : LongHeader → ℕ
token_extent hdr = if is_initial hdr.type then varint_len hdr.token_len + hdr.token_len else 0

get_token-Spells :
    (total i room : ℕ) (hdr : LongHeader)
    → HasToken hdr
    → varint_len hdr.token_len ≤ room
    → Spells total i get_token
        (varint_bytes hdr.token_len room ++ token_data hdr.token_len hdr.token)
        (record { token_len = hdr.token_len; token = hdr.token })
unfolding get_token
get_token-Spells total i room hdr (small, carries) fits =
    >>=-Spells _ _ _ _ _ _ _ _ (get_varint-Spells total i hdr.token_len room (omega arith) fits) (
      reject_if-Spells _ _ _ _ _ _ (within max_token_len hdr.token_len small) (
        unit-right _ _ _ _ _ (
          >>=-Spells _ _ _ _ _ [] _ _ (get_data-Spells _ _ hdr.token_len hdr.token carries)
            (pure-Spells _ _ _))))

pub get_token_if-Spells :
    (total i room : ℕ) (hdr : LongHeader)
    → HasToken hdr
    → varint_len hdr.token_len ≤ room
    → Spells total i
        (get_token_if (is_initial hdr.type))
        (token_bytes hdr room)
        (received_token hdr)
unfolding token_bytes get_token_if
get_token_if-Spells total i room hdr has fits = by_kind (is_initial hdr.type)
  where
    by_kind :
        (initial : Bool)
        → Spells total i
            (if initial then get_token else pure (record { token_len = 0; token = none }))
            (if initial
              then varint_bytes hdr.token_len room ++ token_data hdr.token_len hdr.token
              else [])
            (if initial
              then record { token_len = hdr.token_len; token = hdr.token }
              else record { token_len = 0; token = none })
    by_kind true = get_token-Spells total i room hdr has fits
    by_kind false = pure-Spells _ _ _

pub length-token_bytes :
    (hdr : LongHeader) (room : ℕ)
    → HasToken hdr
    → varint_len hdr.token_len ≤ room
    → length (token_bytes hdr room) ≡ token_extent hdr
unfolding token_bytes
length-token_bytes hdr room (small, carries) fits = by_kind (is_initial hdr.type)
  where
    by_kind :
        (initial : Bool)
        → length (
            if initial
            then varint_bytes hdr.token_len room ++ token_data hdr.token_len hdr.token
            else [])
          ≡ (if initial then varint_len hdr.token_len + hdr.token_len else 0)
    by_kind true = omega (
      arith,
      length-append (varint_bytes hdr.token_len room) (token_data hdr.token_len hdr.token),
      varint_bytes-some hdr.token_len room (omega arith) fits,
      length-token_data hdr.token_len hdr.token carries,
    )
    by_kind false = refl
