-- ===== src/Storage.antt =====
-- crates/aurion-storage: the store of blocks and unspent outputs over the database redb.
pub mod Redb
pub mod Engine
pub mod Tables
pub mod Refinement
pub mod Reads
