-- ===== src/Ack.antt =====
-- ACK tracking and loss detection: src/core/ack.c.
-- `Types` is the state, `Recv` the received packet numbers, `Build` the ACK frame made of them,
-- `Rtt` the round-trip estimate, `Sent` the packets in flight, their acknowledgement and loss.
pub mod Types
pub mod Recv
pub mod Build
pub mod Rtt
pub mod Sent
mod Tests
