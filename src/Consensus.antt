-- ===== src/Consensus.antt =====
-- crates/aurion-consensus: proof of work, the subsidy, the genesis block and block structure.
pub mod Error
pub mod Difficulty
pub mod Subsidy
pub mod Genesis
pub mod Verification
