-- ===== src/Stream/Receive.antt =====
-- The receiver of a stream: `nxp_stream_on_recv` and `nxp_stream_read` of src/core/stream.c. What the
-- application reads are the bytes of the stream, each at its offset.
use nxp.Prelude.{
  ℕ, ◌+◌, ◌-◌, ◌%◌, ◌≤◌, ◌<◌, ◌≡◌, ◌⊎◌, refl, ap, subst, ◌∙◌, arith, List, [], Option, none, some,
  Bool, true, ◌||◌, ltb, leb, ◌==◌, if◌then◌else◌, length, take, drop, Bool-cases, inl, inr, min,
  max, length-take, length-drop,
}
use nxp.Prelude.Word.{add64, sub64, u64_mod}
use nxp.Circular.{Array, copied}
use nxp.Circular.Content.{Agrees}
use nxp.Flow
use nxp.Frame.Types.{StreamFrame}
use nxp.Stream.{
  stream_buf_size, Stream, RecvBuf, is_state, half_closed_remote, closed, reset, set_stream_state,
  ReadResult, at_fin, read, unread_part, store_data, take_data, take_fin, accept, on_recv,
  StreamError, stream_closed, flow_control,
}
use nxp.Stream.Content.{Holds, Agrees-take, Agrees-drop, copied-Holds, copy_out-Holds}
use nxp.Stream.Send.{IsPart}

pub record IsReceiving (content : ℕ → ℕ) (r : RecvBuf) : Type 0 where
  pub read_recv : r.read_offset ≤ r.recv_offset
  pub room : r.recv_offset ≤ r.read_offset + stream_buf_size
  pub held : Holds content r.bytes r.read_offset r.recv_offset
  pub small : r.recv_offset + stream_buf_size < u64_mod

unread_part-Agrees :
    (content : ℕ → ℕ) (read_offset offset : ℕ) (bytes : List ℕ)
    → Agrees content offset bytes
    → read_offset < offset + length bytes
    → let part = unread_part read_offset offset bytes in
      Agrees content part.0 part.1
      × (part.0 ≡ max read_offset offset)
      × (part.0 + length part.1 ≡ offset + length bytes)
unfolding unread_part
unread_part-Agrees content read_offset offset bytes agrees h =
    elim (Bool-cases (ltb offset read_offset)) [
      | inl old ↦
          let k = read_offset - offset in
          let below : offset < read_offset = ground (arith, old) in
          let there : Agrees content read_offset (drop k bytes) =
            subst (λ o. Agrees content o (drop k bytes)) (omega arith)
              (Agrees-drop content offset k bytes agrees) in
          rw old (there, omega arith, omega (arith, length-drop k bytes))
      | inr new ↦
          let above : read_offset ≤ offset = ground (arith, new) in
          rw new (agrees, omega arith, refl)
    ]

-- What holds of the receive buffer after the part of the stream up to `end` has come in.
abbrev IsGrown : (ℕ → ℕ) → RecvBuf → ℕ → RecvBuf → Type 0
IsGrown content r end r' =
    IsReceiving content r'
    × (r'.read_offset ≡ r.read_offset)
    × (r'.recv_offset ≡ max r.recv_offset end)

store_data-IsGrown :
    (content : ℕ → ℕ) (r : RecvBuf) (offset end : ℕ) (bytes : List ℕ)
    → IsReceiving content r
    → Agrees content offset bytes
    → end ≡ offset + length bytes
    → offset ≤ r.recv_offset
    → r.read_offset < end
    → end ≤ r.read_offset + stream_buf_size
    → end + stream_buf_size < u64_mod
    → (r' : RecvBuf) × (store_data r offset end bytes ≡ some r') × IsGrown content r end r'
unfolding store_data
store_data-IsGrown content r offset end bytes v agrees h0 h1 h2 h3 h4 =
    let part = unread_part r.read_offset offset bytes in
    let there = unread_part-Agrees content r.read_offset offset bytes agrees (omega arith) in
    let put =
      copied-Holds content r.bytes r.read_offset r.recv_offset part.0 part.1 v.held there.0
        (omega (arith, there.1)) (omega (arith, there.1, v.read_recv)) v.room
        (omega (arith, there.2)) in
    (
      record r {
        bytes = copied stream_buf_size r.bytes (part.0 % stream_buf_size) part.1;
        recv_offset = if ltb r.recv_offset end then end else r.recv_offset;
      },
      ground (arith, put.0),
      (
        record {
          read_recv = ground (arith, v.read_recv);
          room = ground (arith, v.room);
          held = λ o h5 h6. put.1 o h5 (ground (arith, h6, there.2));
          small = ground (arith, v.small);
        },
        refl,
        ground arith,
      ),
    )

take_data-IsGrown :
    (content : ℕ → ℕ) (s : Stream) (f : StreamFrame)
    → IsReceiving content s.recv
    → IsPart content f
    → f.offset ≤ s.recv.recv_offset
    → f.offset + f.length ≤ s.recv.read_offset + stream_buf_size
    → f.offset + f.length + stream_buf_size < u64_mod
    → (s' : Stream) × (take_data s f f.offset (f.offset + f.length) ≡ some s')
      × IsGrown content s.recv (f.offset + f.length) s'.recv
      × (s'.send ≡ s.send)
      × (s'.state ≡ s.state)
unfolding take_data
take_data-IsGrown content s f v (inl (empty, none_there)) h0 h1 h2 =
    (s, ground (arith, none_there), (v, refl, omega arith), refl, refl)
take_data-IsGrown content s f v (inr (bytes, some_there, agrees, size)) h0 h1 h2 =
    let counted = record s { flow = Flow.on_recv s.flow f.length } in
    elim (Bool-cases (f.length == 0)) [
      | inl empty ↦
          (s, ground (arith, some_there, empty), (v, refl, ground (arith, empty)), refl, refl)
      | inr more ↦ elim (Bool-cases (leb (f.offset + f.length) s.recv.read_offset)) [
        | inl old ↦ (
          counted,
          ground (arith, some_there, more, old),
          (v, refl, ground (arith, old, v.read_recv)),
          refl,
          refl,
        )
        | inr new ↦
            let grown =
              store_data-IsGrown content s.recv f.offset (f.offset + f.length) (take f.length bytes)
                v (Agrees-take content f.offset f.length bytes agrees)
                (omega (arith, size, length-take f.length bytes)) h0 (ground (arith, new)) h1 h2 in
            (
              record counted { recv = grown.0 },
              ground (arith, some_there, more, new, grown.1),
              grown.2,
              refl,
              refl,
            )
      ]
    ]

take_fin_lem :
    (s : Stream) (fin : Bool) (end : ℕ)
    → let s' = take_fin s fin end in
      (s'.recv.bytes ≡ s.recv.bytes)
      × (s'.recv.read_offset ≡ s.recv.read_offset)
      × (s'.recv.recv_offset ≡ s.recv.recv_offset)
      × (s'.send ≡ s.send)
unfolding take_fin set_stream_state
take_fin_lem s fin end = ground arith

same-IsReceiving :
    (content : ℕ → ℕ) (r r' : RecvBuf)
    → r'.bytes ≡ r.bytes
    → r'.read_offset ≡ r.read_offset
    → r'.recv_offset ≡ r.recv_offset
    → IsReceiving content r
    → IsReceiving content r'
same-IsReceiving content r r' e0 e1 e2 v = record {
  read_recv = omega (arith, v.read_recv);
  room = omega (arith, v.room);
  held = λ o h0 h1.
      ap (λ (a : Array). a (o % stream_buf_size)) e0 ∙ v.held o (omega arith) (omega arith);
  small = omega (arith, v.small);
}

-- A frame that carries bytes of the stream, and does not begin past what has come in nor reach further
-- than one buffer past what was read, never makes the receiver write past its buffer, and leaves it in
-- order. Where the frame is accepted, what has come in then reaches up to the end of the frame at
-- least; where it is refused, nothing changes. The sending side is as it was.
pub on_recv-IsReceiving :
    (content : ℕ → ℕ) (s : Stream) (f : StreamFrame)
    → IsReceiving content s.recv
    → IsPart content f
    → (f.has_offset ≡ true) ⊎ (f.offset ≡ 0)
    → f.offset ≤ s.recv.recv_offset
    → f.offset + f.length ≤ s.recv.read_offset + stream_buf_size
    → f.offset + f.length + stream_buf_size < u64_mod
    → (s' : Stream) × (r : Option StreamError) × (on_recv s f ≡ some (s', r))
      × IsReceiving content s'.recv
      × (s'.recv.read_offset ≡ s.recv.read_offset)
      × (((r ≡ none) × (s'.recv.recv_offset ≡ max s.recv.recv_offset (f.offset + f.length)))
          ⊎ (s' ≡ s))
      × (s'.send ≡ s.send)
on_recv-IsReceiving content s f v part at h0 h1 h2 =
    let state = s.state in
    let offset : (if f.has_offset then f.offset else 0) ≡ f.offset = ground (arith, at) in
    let plain : on_recv s f ≡ accept s f f.offset (f.offset + f.length) =
      unfold on_recv in unfold_at offset (omega (arith, offset)) in
    let grown = take_data-IsGrown content s f v part h0 h1 h2 in
    let t = grown.0 in
    let fin = take_fin_lem t f.fin (f.offset + f.length) in
    elim (Bool-cases
      (is_state state half_closed_remote || is_state state closed || is_state state reset)) [
        | inl over ↦ (
          s,
          some stream_closed,
          plain ∙ unfold accept in ground (arith, over),
          v,
          refl,
          inr refl,
          refl,
        )
        | inr live ↦ elim (Bool-cases (ltb s.flow.local_max_data (f.offset + f.length))) [
          | inl too_much ↦ (
            s,
            some flow_control,
            plain ∙ unfold accept in ground (arith, live, too_much),
            v,
            refl,
            inr refl,
            refl,
          )
          | inr allowed ↦ (
            take_fin t f.fin (f.offset + f.length),
            none,
            plain ∙ unfold accept in ground (arith, live, allowed, grown.1),
            same-IsReceiving content t.recv _ fin.0 fin.1 fin.2 grown.2.0,
            fin.1 ∙ grown.2.1,
            inl (refl, fin.2 ∙ grown.2.2),
            fin.3 ∙ grown.3,
          )
        ]
      ]
  where
    unfold_at :
        {o e : ℕ}
        → o ≡ f.offset
        → e ≡ f.offset + f.length
        → accept s f o e ≡ accept s f f.offset (f.offset + f.length)
    unfold_at p q = λ i. accept s f (p i) (q i)

-- A read gives bytes of the stream from where the last one ended, as many as were asked for and have
-- come in; it never reads past the buffer, and leaves it in order.
pub read-IsReceiving :
    (content : ℕ → ℕ) (s : Stream) (buf_len : ℕ)
    → IsReceiving content s.recv
    → (r : ReadResult) × (read s buf_len ≡ some r)
      × Agrees content s.recv.read_offset r.bytes
      × (length r.bytes ≡ min buf_len (s.recv.recv_offset - s.recv.read_offset))
      × IsReceiving content r.stream.recv
      × (r.stream.recv.read_offset ≡ s.recv.read_offset + length r.bytes)
      × (r.stream.recv.recv_offset ≡ s.recv.recv_offset)
      × (r.stream.send ≡ s.send)
unfolding read
read-IsReceiving content s buf_len v =
    let available = sub64 s.recv.recv_offset s.recv.read_offset in
    let n = if ltb buf_len available then buf_len else available in
    let count : n ≡ min buf_len (s.recv.recv_offset - s.recv.read_offset) =
      ground (arith, v.read_recv, v.small) in
    let out =
      copy_out-Holds content s.recv.bytes s.recv.read_offset s.recv.recv_offset n v.held
        (omega (arith, v.read_recv)) (omega (arith, v.room)) in
    let advanced = record s.recv { read_offset = add64 s.recv.read_offset n } in
    elim (Bool-cases (leb s.recv.recv_offset s.recv.read_offset)) [
      | inl all ↦ (
        record { stream = s; bytes = []; fin = at_fin s.recv },
        ground (arith, all),
        tt,
        ground (arith, all),
        v,
        omega arith,
        refl,
        refl,
      )
      | inr more ↦ (
        record {
          stream = record s { recv = advanced; flow = Flow.on_consume s.flow n };
          bytes = out.0;
          fin = at_fin advanced;
        },
        ground (arith, more, out.1),
        out.2,
        omega (arith, out.3, count),
        record {
          read_recv = omega (arith, v.read_recv, v.small);
          room = omega (arith, v.room, v.small);
          held = λ o h0 h1. v.held o (omega (arith, v.small, v.read_recv)) h1;
          small = v.small;
        },
        omega (arith, out.3, count, v.small, v.read_recv),
        refl,
        refl,
      )
    ]
