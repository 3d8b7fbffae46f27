-- ===== src/Node/Mempool.antt =====
-- crates/aurion-node/src/mempool
pub mod FeeRate
pub mod Validation
pub mod Store
