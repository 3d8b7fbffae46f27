-- ===== src/Core.antt =====
-- crates/aurion-core: transactions, blocks and the Merkle root.
pub mod OutPoint
pub mod Datum
pub mod Tx
pub mod Block
pub mod Merkle
pub mod RoundTrip
pub mod BlockRoundTrip
pub mod Canonical
pub mod TxCanonical
pub mod BlockCanonical
