-- ===== src/Tokens.antt =====
-- The package tokens: what the swap types, the errors and the fees are.
pub mod Errors
pub mod Types
pub mod Bridge
pub mod Fees
pub mod NonceSetter
pub mod Abicoder
