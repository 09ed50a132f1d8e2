-- ===== src/Worker.antt =====
-- The package worker: the jobs that carry a registered swap to a stable transaction.
pub mod State
pub mod Update
pub mod Send
pub mod History
pub mod Tasks
pub mod Reverify
pub mod Swap
pub mod SwapJob
pub mod Verify
pub mod Stable
pub mod Replace
pub mod Reswap
pub mod PassBigValue
pub mod Accept
