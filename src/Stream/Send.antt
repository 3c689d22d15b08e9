-- ===== src/Stream/Send.antt =====
-- The sender of a stream: `nxp_stream_write` and `nxp_stream_fill_frame` of src/core/stream.c. What it
-- puts into frames are the bytes of the stream, each at its offset.
use nxp.Prelude.{
  ℕ, ◌+◌, ◌%◌, ◌≤◌, ◌<◌, ◌≡◌, ◌⊎◌, refl, ap, subst, ◌∙◌, arith, List, Option, none, some, Bool,
  true, false, ◌||◌, ltb, if◌then◌else◌, length, take, Bool-cases, inl, inr, max, length-take,
}
use nxp.Prelude.Word.{add64, u64_mod}
use nxp.Circular.{copied, load}
use nxp.Circular.Content.{Agrees, load-Agrees}
use nxp.Frame.Types.{StreamFrame}
use nxp.Stream.{
  stream_buf_size, Stream, SendBuf, is_state, half_closed_local, closed, reset, write_room,
  append_bytes, queue_fin, write, unsent, frame_len, fin_due, next_frame, fill_frame,
}
use nxp.Stream.Content.{Holds, Agrees-take, copied-Holds}

-- The send buffer holds all bytes that are not acknowledged; those up to `sent_offset` are in frames.
pub record IsSending (content : ℕ → ℕ) (b : SendBuf) : Type 0 where
  pub acked_sent : b.acked_offset ≤ b.sent_offset
  pub sent_written : b.sent_offset ≤ b.write_offset
  pub room : b.write_offset ≤ b.acked_offset + stream_buf_size
  pub held : Holds content b.bytes b.acked_offset b.write_offset
  pub small : b.write_offset + stream_buf_size < u64_mod

-- The frame carries the bytes of the stream at its offset, and as many as it says.
abbrev pub IsPart : (ℕ → ℕ) → StreamFrame → Type 0
IsPart content f =
    ((f.length ≡ 0) × (f.bytes ≡ none))
    ⊎ ((bytes : List ℕ) × (f.bytes ≡ some bytes)
        × Agrees content f.offset bytes
        × (length bytes ≡ f.length))

append_bytes-IsSending :
    (content : ℕ → ℕ) (b : SendBuf) (bytes : List ℕ)
    → IsSending content b
    → Agrees content b.write_offset bytes
    → b.write_offset + length bytes ≤ b.acked_offset + stream_buf_size
    → b.write_offset + length bytes + stream_buf_size < u64_mod
    → (b' : SendBuf) × (append_bytes b bytes ≡ some b')
      × IsSending content b'
      × (b'.write_offset ≡ b.write_offset + length bytes)
unfolding append_bytes
append_bytes-IsSending content b bytes v agrees room small =
    let put =
      copied-Holds content b.bytes b.acked_offset b.write_offset b.write_offset bytes v.held agrees
        (omega (arith, v.acked_sent, v.sent_written)) (omega arith) v.room room in
    (
      record b {
        bytes = copied stream_buf_size b.bytes (b.write_offset % stream_buf_size) bytes;
        write_offset = add64 b.write_offset (length bytes);
      },
      ground (arith, put.0),
      record {
        acked_sent = v.acked_sent;
        sent_written = omega (arith, v.sent_written);
        room = omega (arith, room);
        held = λ o h0 h1. put.1 o h0 (omega arith);
        small = omega arith;
      },
      omega arith,
    )

write_room_bounds :
    (content : ℕ → ℕ) (s : Stream)
    → IsSending content s.send
    → s.flow.peer_max_data < u64_mod
    → (s.send.write_offset + write_room s ≤ s.send.acked_offset + stream_buf_size)
      × (s.send.write_offset + write_room s ≤ max s.send.write_offset s.flow.peer_max_data)
unfolding write_room
write_room_bounds content s v h = ground (arith, v.acked_sent, v.sent_written, v.room, v.small)

-- How many bytes a write takes, by its result.
abbrev pub taken : Option ℕ → ℕ
taken none = 0
taken (some n) = n

-- While the peer's limit is below 2^64 less a buffer, writing bytes to a stream whose send buffer is in
-- order never writes past the buffer and leaves it in order. It takes at most what it was given, and
-- nothing beyond the limit of the peer, and never changes the receiving side.
pub write-IsSending :
    (content : ℕ → ℕ) (s : Stream) (bytes : List ℕ) (fin : Bool)
    → IsSending content s.send
    → Agrees content s.send.write_offset bytes
    → s.flow.peer_max_data + stream_buf_size < u64_mod
    → (s' : Stream) × (r : Option ℕ) × (write s bytes fin ≡ some (s', r))
      × IsSending content s'.send
      × (s'.send.write_offset ≡ s.send.write_offset + taken r)
      × (taken r ≤ length bytes)
      × (s'.send.write_offset ≤ max s.send.write_offset s.flow.peer_max_data)
      × (s'.recv ≡ s.recv)
unfolding write queue_fin
write-IsSending content s bytes fin v agrees hp =
    let state = s.state in
    let n = if ltb (length bytes) (write_room s) then length bytes else write_room s in
    let some_left : n ≤ write_room s = ground arith in
    let some_given : n ≤ length bytes = ground arith in
    let room = write_room_bounds content s v (omega (arith, hp)) in
    let size : length (take n bytes) ≡ n = omega (arith, length-take n bytes) in
    let put =
      append_bytes-IsSending content s.send (take n bytes) v
        (Agrees-take content s.send.write_offset n bytes agrees) (omega (arith, room, size))
        (omega (arith, room, size, v.small)) in
    elim (Bool-cases
      (is_state state half_closed_local || is_state state closed || is_state state reset)) [
        | inl over ↦ (s, none, ground (arith, over), v, omega arith, omega arith, omega arith, refl)
        | inr live ↦ elim (Bool-cases s.send.fin) [
          | inl ended ↦
              (s, none, ground (arith, live, ended), v, omega arith, omega arith, omega arith, refl)
          | inr goes ↦ (
            queue_fin s put.0 fin,
            some n,
            ground (arith, live, goes, put.1),
            keeps put.0 put.2,
            offset put.0 ∙ put.3 ∙ ap (λ (k : ℕ). s.send.write_offset + k) size,
            some_given,
            omega (arith, offset put.0, put.3, size, room),
            refl,
          )
        ]
      ]
  where
    keeps : (b : SendBuf) → IsSending content b → IsSending content (queue_fin s b fin).send
    keeps b w = ground (arith, w)

    offset : (b : SendBuf) → (queue_fin s b fin).send.write_offset ≡ b.write_offset
    offset b = ground arith

load-IsPart :
    (content : ℕ → ℕ) (b : SendBuf) (n : ℕ)
    → IsSending content b
    → b.sent_offset + n ≤ b.write_offset
    → b.sent_offset % stream_buf_size + n ≤ stream_buf_size
    → let bytes = load b.bytes (b.sent_offset % stream_buf_size) n in
      Agrees content b.sent_offset bytes × (length bytes ≡ n)
load-IsPart content b n v h0 h1 =
    load-Agrees content b.bytes (b.sent_offset % stream_buf_size) b.sent_offset n (λ k hk.
      ap b.bytes (index k hk)
      ∙ v.held (b.sent_offset + k) (omega (arith, v.acked_sent)) (omega arith))
  where
    index :
        (k : ℕ)
        → k < n
        → b.sent_offset % stream_buf_size + k ≡ (b.sent_offset + k) % stream_buf_size
    index k hk = omega arith

frame_len_bounds :
    (content : ℕ → ℕ) (s : Stream) (max_data_len : ℕ)
    → IsSending content s.send
    → let n = frame_len s max_data_len in
      (s.send.sent_offset + n ≤ s.send.write_offset)
      × (s.send.sent_offset % stream_buf_size + n ≤ stream_buf_size)
      × (n ≤ max_data_len)
unfolding frame_len unsent
frame_len_bounds content s max_data_len v = ground (arith, v.sent_written)

-- What holds of the frame filled from `s`, and of the stream after it.
abbrev pub IsFilled : (ℕ → ℕ) → Stream → ℕ → Stream × StreamFrame → Type 0
IsFilled content s max_data_len (s', f) =
    IsPart content f
    × IsSending content s'.send
    × (f.offset ≡ s.send.sent_offset)
    × (s'.send.sent_offset ≡ f.offset + f.length)
    × (f.length ≤ max_data_len)
    × ((f.fin ≡ false) ⊎ ((s.send.fin ≡ true) × (f.offset + f.length ≡ s.send.write_offset)))
    × (f.has_offset ≡ ltb 0 f.offset)
    × (s'.recv ≡ s.recv)

next_frame-IsFilled :
    (content : ℕ → ℕ) (s : Stream) (max_data_len : ℕ)
    → IsSending content s.send
    → IsFilled content s max_data_len (next_frame s (frame_len s max_data_len))
unfolding next_frame
next_frame-IsFilled content s max_data_len v =
    let n = frame_len s max_data_len in
    let bounds = frame_len_bounds content s max_data_len v in
    let part = load-IsPart content s.send n v bounds.0 bounds.1 in
    (
      carried n part,
      record {
        acked_sent = omega (arith, v.acked_sent, v.small, bounds.0);
        sent_written = omega (arith, v.small, bounds.0);
        room = v.room;
        held = v.held;
        small = v.small;
      },
      refl,
      omega (arith, v.small, bounds.0),
      bounds.2,
      unfold fin_due in ground (arith, v.small, bounds.0),
      refl,
      refl,
    )
  where
    carried :
        (n : ℕ)
        → (Agrees content s.send.sent_offset
              (load s.send.bytes (s.send.sent_offset % stream_buf_size) n)
            × (length (load s.send.bytes (s.send.sent_offset % stream_buf_size) n) ≡ n))
        → IsPart content (next_frame s n).1
    carried n part = elim (Bool-cases (ltb 0 n)) [
      | inl more ↦ inr (
        load s.send.bytes (s.send.sent_offset % stream_buf_size) n,
        ground (arith, more),
        part.0,
        part.1,
      )
      | inr empty ↦ inl (ground (arith, empty), ground (arith, empty))
    ]

-- A frame that is filled from a stream whose send buffer is in order carries exactly the bytes of the
-- stream at its offset, as many as it says and at most as many as was asked for; it moves `sent_offset` to
-- its end and leaves the buffer in order; and it has the FIN bit only if the application has ended the
-- stream and the frame reaches the end of what was written.
pub fill_frame-IsFilled :
    (content : ℕ → ℕ) (s : Stream) (max_data_len : ℕ) (s' : Stream) (f : StreamFrame)
    → IsSending content s.send
    → fill_frame s max_data_len ≡ some (s', f)
    → IsFilled content s max_data_len (s', f)
unfolding fill_frame
fill_frame-IsFilled content s max_data_len s' f v e =
    let same : next_frame s (frame_len s max_data_len) ≡ (s', f) = ground (arith, e) in
    subst (IsFilled content s max_data_len) same (next_frame-IsFilled content s max_data_len v)
