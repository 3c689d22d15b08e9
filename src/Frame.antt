-- ===== src/Frame.antt =====
-- The frame engine: src/core/frame.c and src/core/frame_internal.h.
-- `Types` holds the parsed frames, `Encode` one writer for each encoder, `Decode` the decoder.
-- A pointer into a buffer is the bytes that may be read behind it, or `none` for the null pointer;
-- the pointers to the frame and to the buffer themselves are never null here.
pub mod Types
pub mod Encode
pub mod RoundTrip
pub mod Decode
pub mod Admitted
pub mod Limits
mod Tests
pub mod Bounds
pub mod Total
