-- ===== src/Packet/RoundTrip.antt =====
-- Decoding the headers that were encoded.
pub mod Spells
pub mod Fields
pub mod Short
pub mod Long
pub mod Whole
