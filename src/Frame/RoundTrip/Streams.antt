-- ===== src/Frame/RoundTrip/Streams.antt =====
-- The round trips of STREAM and PADDING frames.
use nxp.Prelude.{
  ℕ, ◌≡◌, ◌∙◌, refl, arith, List, [], ◌∷◌, ◌++◌, Bool, true, false, if◌then◌else◌, fact_unless,
}
use nxp.Codec.{Writer, put_varint, put_byte, ◌>>◌, skip}
use nxp.Codec.Laws.{Reads, >>-Reads, >>-inv, put_byte-Reads, put_byte-out, pure-Reads, Moves-trans}
use nxp.Frame.Types.{Frame, StreamFrame, is_stream}
use nxp.Frame.Admitted.{IsSendable}
use nxp.Frame.Encode.{stream_type_byte, put_data_if, write_stream, write_ping}
use nxp.Frame.Decode.{decode, read_body, read_stream, read_stream_fields, get_stream_length}
use nxp.Frame.RoundTrip.Common.{
  varint->>-Reads, reject_if-Reads, get_if-Reads, put_data_if-Reads, decode-type, Reads-eq,
}

-- A first byte that is written as such.
byte-first :
    (b : ℕ) (w : Writer) (f : Frame)
    → ((l : List ℕ) → decode (b ∷ l) ≡ read_stream b l)
    → Reads (read_stream b) w f
    → Reads decode (put_byte b >> w) f
unfolding Reads
byte-first b w f select r c out c' rest fits h =
    let (o1, c1, o2, e1, e2, e) = >>-inv (put_byte b) w c h in
    let (r1, m1) = put_byte-Reads b c o1 c1 [] fits e1 in
    let (r2, m2) = r c1 o2 c' rest (omega arith) e2 in
    let only = put_byte-out b c o1 c1 e1 in
    (rw (e, only) (select (o2 ++ rest) ∙ r2), rw e (Moves-trans c o1 c1 o2 c' m1 m2))

-- The type byte says which fields are there.
type_byte_lem :
    (f : StreamFrame) (off len fin : Bool) (l : List ℕ)
    → f.has_offset ≡ off
    → f.has_length ≡ len
    → f.fin ≡ fin
    → (decode (stream_type_byte f ∷ l) ≡ read_stream (stream_type_byte f) l)
      × (read_stream (stream_type_byte f) l ≡ read_stream_fields off len fin l)
unfolding decode is_stream read_stream stream_type_byte
type_byte_lem f true true true l a b c = rw (a, b, c) (refl, refl)
type_byte_lem f true true false l a b c = rw (a, b, c) (refl, refl)
type_byte_lem f true false true l a b c = rw (a, b, c) (refl, refl)
type_byte_lem f true false false l a b c = rw (a, b, c) (refl, refl)
type_byte_lem f false true true l a b c = rw (a, b, c) (refl, refl)
type_byte_lem f false true false l a b c = rw (a, b, c) (refl, refl)
type_byte_lem f false false true l a b c = rw (a, b, c) (refl, refl)
type_byte_lem f false false false l a b c = rw (a, b, c) (refl, refl)

fields-Reads :
    (f : StreamFrame)
    → IsSendable f
    → Reads
        (read_stream_fields f.has_offset true f.fin)
        (put_varint f.stream_id
          >> (if f.has_offset then put_varint f.offset else skip)
          >> put_varint f.length
          >> put_data_if f.bytes f.length
          >> skip)
        (Frame.stream (record f { has_length = true }))
unfolding read_stream_fields get_stream_length
fields-Reads f v = varint->>-Reads _ _ _ _ (
    reject_if-Reads _ _ _ _ _ v.id_in (
      >>-Reads _ _ _ _ _ _
        (get_if-Reads f.has_offset f.offset (fact_unless f.has_offset v.offset_absent))
        (reject_if-Reads _ _ _ _ _ v.offset_in (
          varint->>-Reads _ _ _ _ (
            reject_if-Reads _ _ _ _ _ v.length_in (
              >>-Reads _ _ _ _ _ _
                (put_data_if-Reads f.bytes f.length (omega (arith, v.length_in)) v.carried)
                (pure-Reads _)))))))

pub stream-Reads :
    (f : StreamFrame)
    → IsSendable f
    → f.has_length ≡ true
    → Reads decode (write_stream f) (Frame.stream f)
unfolding write_stream
stream-Reads f v has =
    let shape = λ (l : List ℕ). type_byte_lem f f.has_offset true f.fin l refl has refl in
    byte-first (stream_type_byte f) _ _ (λ l. (shape l).0)
      (Reads-eq _ _ _ _ (λ l. (shape l).1) (rw has (fields-Reads f v)))

pub ping-Reads : Reads decode write_ping Frame.ping
unfolding write_ping Reads read_body is_stream
ping-Reads c out c' rest fits h =
    let (r, m) = put_byte-Reads 0x01 c out c' [] fits h in
    let only = put_byte-out 0x01 c out c' h in
    (rw only (decode-type 0x01 rest (omega arith) (omega arith) refl), m)
