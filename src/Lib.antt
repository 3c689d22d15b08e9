-- ===== src/Lib.antt =====
-- The NXP transport protocol library: a verification of its wire formats and of the state machines
-- that a connection is made of.
--
-- The program. A connection (src/core/connection.c) turns packets into frames and back (src/core/frame.c,
-- over the variable-length integers of src/util/varint.c), behind a packet header (src/core/packet.c). It
-- fills frames from its streams, which its scheduler (src/core/scheduler.c) serves in turn, and gives them
-- what arrives (src/core/stream.c), records what arrives and what it has sent
-- (src/core/ack.c), and asks, before it sends, flow control (src/core/flow_control.c), the pacer
-- (src/congestion/pacing.c) and the rate limiter of the stream (src/core/stream_rate.h). The heartbeat
-- (src/core/heartbeat.c) finds out whether the peer is there. How much may be in flight, and how fast, BBR
-- decides (src/congestion/bbr.c) from the samples of src/congestion/delivery_rate.c. One of the transports
-- wraps packets in WebSocket frames (src/transport/websocket/ws_frame.c). A peer may change its address
-- (src/core/migration.c).
--
-- Prelude: what all modules share. Numbers are the native ones; `Prelude.Word` writes the wrap-around
-- of machine words out, and `Prelude.Bits` relates the bit operations to arithmetic.
-- Varint: `nxp_varint_encode`, `nxp_varint_decode` and `nxp_varint_len` of src/util/varint.c and
-- src/util/varint.h.
-- Codec: readers and writers over a buffer, made of the functions `encode_varint` and `decode_varint` of
-- src/core/frame.c and of its recurring steps; their laws are in `Codec.Laws`, `Codec.Takes` and `Codec.Total`.
-- Frame: src/core/frame.c and src/core/frame_internal.h. `Frame.Encode` has a writer per
-- `nxp_frame_encode_...`, `Frame.Decode` a reader per case of `nxp_frame_decode`.
-- Ack: src/core/ack.c and `nxp_ack_state` of src/core/connection_internal.h. `Ack.Recv` is
-- `nxp_ack_on_pkt_recv`, `Ack.Build` is `nxp_ack_build_frame` and the test of a packet number against a frame,
-- `Ack.Rtt` is `update_rtt`, `Ack.Sent` is `nxp_ack_on_pkt_sent`, `detect_lost_packets`,
-- `nxp_ack_on_ack_recv`, `nxp_ack_loss_timeout` and `nxp_ack_on_loss_timeout`.
-- Flow: src/core/flow_control.c. TokenBucket, Pacer, StreamRate: src/congestion/pacing.c and
-- src/core/stream_rate.h. Heartbeat: src/core/heartbeat.c. WindowedFilter: src/congestion/windowed_filter.h.
-- Circular: the copies into and out of an array used in a circle. Stream: src/core/stream.c; `Stream.Send`
-- and `Stream.Receive` are about the two sides, `Stream.Run` about what happens between them, as steps.
-- Packet: src/core/packet.c. `Packet.Encode` and `Packet.Decode` have a function for each form of the header,
-- `Packet.Number` has `nxp_pkt_decode_pkt_num` and `nxp_pkt_num_len`; `Packet.RoundTrip.Spells` is a calculus
-- of readers that know their position.
-- Bbr: src/congestion/bbr.c, one function per function of the source, the longer ones in parts;
-- `Bbr.Probe` is about the acknowledgements of one PROBE_RTT. DeliveryRate:
-- src/congestion/delivery_rate.c. WebSocket: src/transport/websocket/ws_frame.c. Migration:
-- src/core/migration.c; `Migration.Path` and `Migration.Kept` are about any sequence of its calls.
-- Scheduler: src/core/scheduler.c, as assignments to the links of a store; `Scheduler.Ring` is about the circle
-- of links, `Scheduler.Queue` about the queue that it stands for, `Scheduler.Turns` about sequences of calls.
-- Connection: src/core/connection.c, over the modules above. `Connection.States` and `Connection.StreamId` are
-- its states and the ids of its streams, `Connection.Acked` the callbacks of the tracker, `Connection.Frames`
-- is `process_frames`, `Connection.Receive` is `nxp_conn_recv`, `Connection.Send` and its child
-- `nxp_conn_send`, `Connection.Timers` the timers and `Connection.Api` the calls of the application.
-- `Connection.Keeps` has what each of these keeps, `Connection.Run` what sequences of them keep, and
-- `Connection.Ends`, `Connection.Credit`, `Connection.Stuck` and `Connection.Forged` are about single parts.
--
-- A structure is a record with the fields of the source, its operation a function that returns the new
-- record. A result of 0 or false for a failure is `none`. A reader returns the bytes that it leaves, in
-- place of the number of bytes read. An array with a count is the list of the elements in use. A callback
-- is the list of what it is called with. Loops are structural recursion on lists, or on the number of their
-- turns, but for two of the connection, which have fuel: the loop over the frames of a packet, for which the
-- number of its bytes is enough, and the loop over the scheduler, for which the streams in it and the eight
-- records of a packet are enough where no stream has a rate limit.
--
-- Not modelled: null pointers passed to a function, the bytes that a writer that fails has left in the
-- buffer, logging and the flight recorder. Of the connection the packets of a handshake are not modelled (they
-- come next), nor its release, 0-RTT data and the ticket saved for a reconnection, which it only stores. What
-- src/crypto does with its keys is a record of functions in its state. Not modelled either are the listener,
-- the rest of the handshake, cryptography, sockets, event loops, memory pools and the API.
pub mod Prelude
pub mod Varint
pub mod Codec
pub mod Frame
pub mod Ack
pub mod Flow
pub mod TokenBucket
pub mod Pacer
pub mod Scheduler
pub mod Connection
pub mod StreamRate
pub mod Heartbeat
pub mod WebSocket
pub mod WindowedFilter
pub mod Bbr
pub mod Circular
pub mod DeliveryRate
pub mod Stream
pub mod Packet
pub mod Migration
