-- ===== src/Frame/RoundTrip/ConnectionId.antt =====
-- The round trip of NEW_CONNECTION_ID, whose encoder checks the room for all its bytes at once.
use nxp.Prelude.{
  ℕ, ◌+◌, ◌≤◌, ◌<◌, ◌^◌, ◌≡◌, refl, ◌∙◌, arith, List, [], ◌++◌, some, none, Bool, true, false,
  length, take, take_all, length-append, ltb, if◌then◌else◌,
}
use nxp.Codec.{Parser, put_data, Cursor, Writer, ◌>>=◌, ◌>>◌, skip, fail_if}
use nxp.Codec.Laws.{
  Reads, Fits, >>-Reads, >>-inv, put_byte-Reads, put_data-Reads, pure_eq-Reads, check->>-Reads,
  length-put_data, put_data-IsBounded, IsBounded,
}
use nxp.Frame.Types.{Frame, NewConnectionIdFrame, is_stream, max_cid_len}
use nxp.Frame.Encode.{check_cid_room, write_new_connection_id}
use nxp.Frame.Decode.{decode, read_body, check_bytes, conn_id, read_new_connection_id}
use nxp.Frame.RoundTrip.Common.{type-Reads, varint->>-Reads, reject_if-Reads}

le→ltb-false : (a b : ℕ) → a ≤ b → ltb b a ≡ false
le→ltb-false a b h = ground arith

fail_if-Reads {ℓ} :
    {A : Type ℓ} (limit n : ℕ) (p : Parser A) (w : Writer) (a : A)
    → Reads p w a
    → Reads p (fail_if (ltb limit n) w) a
unfolding Reads
fail_if-Reads limit n p w a r c out c' rest fits e = r c out c' rest fits (ground arith)

check_cid_room-skips :
    (n : ℕ) (c : Cursor) (o : List ℕ) (c1 : Cursor)
    → check_cid_room n c ≡ some (o, c1)
    → (o ≡ []) × (c1 ≡ c)
unfolding check_cid_room
check_cid_room-skips n c o c1 h = ground arith

-- The identifier and the token are `n + 16` bytes.
bytes_written :
    (cid token : List ℕ) (n : ℕ) (c : Cursor) (out : List ℕ) (c' : Cursor)
    → n ≤ length cid
    → n < 2 ^ 62
    → 16 ≤ length token
    → Fits c
    → (put_data (some cid) n >> put_data (some token) 16 >> skip) c ≡ some (out, c')
    → n + 16 ≤ length out
unfolding IsBounded
bytes_written cid token n c out c' hn small ht fits e =
    let (o1, c1, o2, e1, e2, eq) =
      >>-inv (put_data (some cid) n) (put_data (some token) 16 >> skip) c e in
    let (o3, c3, o4, e3, e4, eq2) = >>-inv (put_data (some token) 16) skip c1 e2 in
    let n1 = length-put_data cid n c o1 c1 hn (omega arith) fits e1 in
    let m1 = put_data-IsBounded (some cid) n (omega arith) hn c o1 c1 fits e1 in
    let n2 = length-put_data token 16 c1 o3 c3 ht (omega arith) (omega (arith, m1)) e3 in
    rw (eq, eq2, length-append o1 (o3 ++ o4), length-append o3 o4) (omega (arith, n1, n2))

check_bytes->>=-Reads {ℓ} :
    {A : Type ℓ} (n : ℕ) (p : Parser A) (w : Writer) (a : A)
    → ((c : Cursor) (out : List ℕ) (c' : Cursor) → Fits c → w c ≡ some (out, c') → n ≤ length out)
    → Reads p w a
    → Reads (check_bytes n >>= λ _. p) w a
unfolding Reads check_bytes
check_bytes->>=-Reads n p w a long r c out c' rest fits e =
    let (q, m) = r c out c' rest fits e in
    let enough : n ≤ length (out ++ rest) =
      omega (arith, long c out c' fits e, length-append out rest) in
    (
      passes (ltb (length (out ++ rest)) n) (le→ltb-false n (length (out ++ rest)) enough)
            (out ++ rest)
          ∙ q,
      m,
    )
  where
    passes :
        (b : Bool)
        → b ≡ false
        → (l : List ℕ) → ((λ (x : List ℕ). if b then none else some (tt {0}, x)) >>= λ _. p) l ≡ p l
    passes true h l = absurd (cc h)
    passes false h l = refl

pub new_connection_id-Reads :
    (f : NewConnectionIdFrame)
    → f.cid.len ≤ max_cid_len
    → f.cid.len ≤ length f.cid.bytes
    → conn_id f.cid.len (take f.cid.len f.cid.bytes) ≡ f.cid
    → length f.stateless_reset_token ≡ 16
    → Reads decode (write_new_connection_id f) (Frame.new_connection_id f)
unfolding write_new_connection_id read_body read_new_connection_id is_stream
new_connection_id-Reads f h len padded token = fail_if-Reads _ _ _ _ _ (
    type-Reads 0x18 _ _ (omega arith) (omega arith) refl (
      varint->>-Reads _ _ _ _ (
        varint->>-Reads _ _ _ _ (
          check->>-Reads _ _ _ _ (check_cid_room-skips f.cid.len) (
            >>-Reads _ _ _ _ _ _ (put_byte-Reads f.cid.len) (
              reject_if-Reads _ _ _ _ _ h (
                check_bytes->>=-Reads _ _ _ _
                  (λ c out c' fits e.
                    bytes_written f.cid.bytes f.stateless_reset_token f.cid.len c out c' len
                      (omega arith) (omega arith) fits e)
                  (>>-Reads _ _ _ _ _ _ (put_data-Reads f.cid.bytes f.cid.len len (omega arith)) (
                    >>-Reads _ _ _ _ _ _
                      (put_data-Reads f.stateless_reset_token 16 (omega arith) (omega arith))
                      (pure_eq-Reads _ _ (
                        rw (padded, take_all 16 f.stateless_reset_token (omega arith))
                          refl)))))))))))
