-- ===== src/Tokens/Abicoder.antt =====
-- tokens/eth/abicoder: the data of contract calls and logs, as 32-byte words and what they point to.
pub mod Encode
pub mod Decode
pub mod RoundTrip
pub mod Layout
pub mod Values
pub mod Slices
pub mod Overflow
