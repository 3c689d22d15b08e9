-- ===== src/Stream/Tests.antt =====
-- Runs of streams, and the theorems at concrete streams.
use nxp.Prelude.{
  ℕ, ◌+◌, ◌≤◌, ◌≡◌, ◌⊎◌, refl, inr, arith, List, [], ◌∷◌, ◌++◌, Option, none, some, true, false,
  max,
}
use nxp.Frame.Types.{StreamFrame}
use nxp.Stream.{
  Stream, StreamError, reliable, create, write, read, on_recv, on_ack, on_loss, fill_frame,
  ReadResult,
}
use nxp.Stream.Send.{IsSending, taken, write-IsSending}
use nxp.Stream.Receive.{IsReceiving, on_recv-IsReceiving}
use nxp.Stream.Run.{Link, Run, create-IsFaithful}

abbrev fresh : Stream
fresh = create 4 reliable 1000 1000

abbrev letters : ℕ → ℕ
letters o = 97 + o

-- A frame that arrives before an earlier one: what is missing is read as zero bytes.
abbrev late_part : StreamFrame
late_part = record {
  stream_id = 4;
  offset = 2;
  length = 1;
  has_offset = true;
  has_length = true;
  fin = false;
  bytes = some (99 ∷ []);
}

read_bytes : Option (Stream × Option StreamError) → List ℕ
read_bytes none = []
read_bytes (some (s, e)) = elim (read s 10) [ none ↦ [] | some r ↦ r.bytes ]

gap_read_as_zero : read_bytes (on_recv fresh late_part) ≡ 0 ∷ 0 ∷ 99 ∷ []
unfolding read_bytes on_recv read create nxp.Stream.accept nxp.Flow.init nxp.Stream.take_data
    nxp.Stream.store_data nxp.Circular.copy_in nxp.Stream.unread_part nxp.Circular.before_end
    nxp.Stream.take_fin nxp.Circular.copy_out nxp.Circular.load nxp.Circular.copied
    nxp.Circular.store
gap_read_as_zero = refl

abbrev first_part : StreamFrame
first_part = record {
  stream_id = 4;
  offset = 0;
  length = 2;
  has_offset = false;
  has_length = true;
  fin = true;
  bytes = some (97 ∷ 98 ∷ []);
}

abbrev stream_of : Stream → Option (Stream × Option ℕ) → Stream
stream_of s none = s
stream_of s (some (t, r)) = t

abbrev filled_of : Stream → Option (Stream × StreamFrame) → Stream × StreamFrame
filled_of s none = (s, late_part)
filled_of s (some p) = p

abbrev received_of : Stream → Option (Stream × Option StreamError) → Stream
received_of s none = s
received_of s (some (t, e)) = t

abbrev result_of : Stream → Option ReadResult → ReadResult
result_of s none = record { stream = s; bytes = []; fin = false }
result_of s (some r) = r

-- The sender writes two bytes, one frame carries them, the receiver reads them.
abbrev written : Stream
written = stream_of fresh (write fresh (97 ∷ 98 ∷ []) false)

abbrev filled : Stream × StreamFrame
filled = filled_of written (fill_frame written 100)

abbrev received : Stream
received = received_of fresh (on_recv fresh filled.1)

abbrev result : ReadResult
result = result_of received (read received 10)

abbrev l0 : Link
l0 = record { sender = fresh; receiver = fresh; delivered = [] }

abbrev l1 : Link
l1 = record l0 { sender = written }

abbrev l2 : Link
l2 = record l1 { sender = filled.0; receiver = received }

abbrev l3 : Link
l3 = record l2 { receiver = result.stream; delivered = l2.delivered ++ result.bytes }

delivered : l3.delivered ≡ 97 ∷ 98 ∷ []
unfolding read on_recv nxp.Stream.accept create nxp.Flow.init fill_frame nxp.Stream.unsent write
    nxp.Stream.append_bytes nxp.Circular.copy_in nxp.Stream.write_room nxp.Circular.before_end
    nxp.Stream.queue_fin nxp.Stream.next_frame nxp.Stream.frame_len nxp.Stream.take_data
    nxp.Stream.store_data nxp.Circular.copied nxp.Circular.copy_out nxp.Circular.load
    nxp.Circular.store nxp.Flow.on_consume nxp.Flow.on_recv nxp.Stream.at_fin nxp.Stream.fin_due
    nxp.Stream.take_fin nxp.Stream.unread_part
delivered = refl

write-IsSending_example :
    (s' : Stream) × (r : Option ℕ) × (write fresh (97 ∷ 98 ∷ []) true ≡ some (s', r))
    × IsSending letters s'.send
    × (s'.send.write_offset ≡ fresh.send.write_offset + taken r)
    × (taken r ≤ 2)
    × (s'.send.write_offset ≤ max fresh.send.write_offset fresh.flow.peer_max_data)
    × (s'.recv ≡ fresh.recv)
unfolding create nxp.Flow.init
write-IsSending_example =
    write-IsSending letters fresh (97 ∷ 98 ∷ []) true
      (create-IsFaithful letters 4 1000 1000).sending (refl, (refl, tt)) (omega arith)

on_recv-IsReceiving_example :
    (s' : Stream) × (r : Option StreamError) × (on_recv fresh first_part ≡ some (s', r))
    × IsReceiving letters s'.recv
    × (s'.recv.read_offset ≡ fresh.recv.read_offset)
    × (((r ≡ none) × (s'.recv.recv_offset ≡ max fresh.recv.recv_offset 2)) ⊎ (s' ≡ fresh))
    × (s'.send ≡ fresh.send)
unfolding create
on_recv-IsReceiving_example =
    on_recv-IsReceiving letters fresh first_part (create-IsFaithful letters 4 1000 1000).receiving
      (inr (97 ∷ 98 ∷ [], refl, (refl, (refl, tt)), refl)) (inr refl) (omega arith) (omega arith)
      (omega arith)
