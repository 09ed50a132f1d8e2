-- ===== src/Mongo.antt =====
-- The package mongodb: the two collections of swaps and the operations on them.
pub mod Status
pub mod Tables
pub mod Driver
pub mod Db
pub mod Key
pub mod Swaps
pub mod Results
pub mod UsedR
pub mod Admin
pub mod Converts
