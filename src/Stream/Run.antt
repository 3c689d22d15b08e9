-- ===== src/Stream/Run.antt =====
-- A stream between two ends: runs of writes, frames, losses, retransmissions, acknowledgements and reads.
use nxp.Prelude.{ℕ, ◌+◌, ◌≤◌, ◌<◌, ◌≡◌, refl, arith, List, [], ◌++◌, Option, some, Bool, length}
use nxp.Prelude.Word.{u64_mod}
use nxp.Circular.Content.{Agrees}
use nxp.Frame.Types.{StreamFrame}
use nxp.Stream.{
  stream_buf_size, Stream, StreamError, create, reliable, ReadResult, write, fill_frame, on_recv,
  read, on_ack, on_loss,
}
use nxp.Stream.Send.{IsSending}
use nxp.Stream.Receive.{IsReceiving}

-- `delivered` is all that the application of the receiver has read.
pub record Link : Type 0 where
  pub sender : Stream
  pub receiver : Stream
  pub delivered : List ℕ

-- What may happen. `content` gives the bytes that the application of the sender writes. A frame
-- arrives only if no earlier byte is missing and the receiver has room for it; it may also get lost. An
-- acknowledged part of the stream was sent, and a part that is declared lost begins behind all that is
-- acknowledged.
pub data Step (content : ℕ → ℕ) : Link → Link → Type 0 where
  writes :
      (l : Link) (bytes : List ℕ) (fin : Bool) (s : Stream) (r : Option ℕ)
      → Agrees content l.sender.send.write_offset bytes
      → l.sender.flow.peer_max_data + stream_buf_size < u64_mod
      → write l.sender bytes fin ≡ some (s, r)
      → Step content l (record l { sender = s })
  arrives :
      (l : Link) (max_data_len : ℕ) (s t : Stream) (f : StreamFrame) (r : Option StreamError)
      → fill_frame l.sender max_data_len ≡ some (s, f)
      → f.offset ≤ l.receiver.recv.recv_offset
      → f.offset + f.length ≤ l.receiver.recv.read_offset + stream_buf_size
      → on_recv l.receiver f ≡ some (t, r)
      → Step content l (record l { sender = s; receiver = t })
  drops :
      (l : Link) (max_data_len : ℕ) (s : Stream) (f : StreamFrame)
      → fill_frame l.sender max_data_len ≡ some (s, f)
      → Step content l (record l { sender = s })
  acks :
      (l : Link) (offset len : ℕ) (fin : Bool)
      → offset + len ≤ l.sender.send.sent_offset
      → Step content l (record l { sender = on_ack l.sender offset len fin })
  loses :
      (l : Link) (offset len : ℕ) (fin : Bool)
      → l.sender.send.acked_offset ≤ offset
      → Step content l (record l { sender = on_loss l.sender offset len fin })
  reads :
      (l : Link) (buf_len : ℕ) (r : ReadResult)
      → read l.receiver buf_len ≡ some r
      → Step content l (record l { receiver = r.stream; delivered = l.delivered ++ r.bytes })

pub data Run (content : ℕ → ℕ) : Link → Link → Type 0 where
  done : (l : Link) → Run content l l
  and_then : {a b c : Link} → Step content a b → Run content b c → Run content a c

-- Both buffers are in order, and the application has read the bytes of the stream from the first on.
pub record IsFaithful (content : ℕ → ℕ) (l : Link) : Type 0 where
  pub sending : IsSending content l.sender.send
  pub receiving : IsReceiving content l.receiver.recv
  pub prefix : Agrees content 0 l.delivered
  pub counted : length l.delivered ≡ l.receiver.recv.read_offset

-- A new pair of ends.
pub create-IsFaithful :
    (content : ℕ → ℕ) (id credit window : ℕ)
    → IsFaithful content (record {
      sender = create id reliable credit window;
      receiver = create id reliable window credit;
      delivered = [];
    })
unfolding create
create-IsFaithful content id credit window = record {
  sending = record {
    acked_sent = omega arith;
    sent_written = omega arith;
    room = omega arith;
    held = λ o h0 h1. absurd (omega arith);
    small = omega arith;
  };
  receiving = record {
    read_recv = omega arith;
    room = omega arith;
    held = λ o h0 h1. absurd (omega arith);
    small = omega arith;
  };
  prefix = tt;
  counted = refl;
}
