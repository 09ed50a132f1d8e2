-- ===== src/Examples.antt =====
-- A database in memory and a set of tasks, with which the theorems are applied to concrete swaps.
pub mod Memory
pub mod Data
mod Database
mod Jobs
mod Numbers
mod Accepting
mod Nonces
mod Calldata
mod Configs
mod Thresholds
mod Retries
