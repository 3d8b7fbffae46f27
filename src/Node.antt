-- ===== src/Node.antt =====
-- crates/aurion-node/src
pub mod Invariants
pub mod Mempool
pub mod Ledger
pub mod Authority
