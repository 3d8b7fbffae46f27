-- ===== src/Consensus/Error.antt =====
-- crates/aurion-consensus/src/error.rs
use aurion.Prelude.{ℕ}
use aurion.Bytes.{Bytes}
use aurion.Primitives.Hash.{Hash256}

-- The two hexadecimal texts of `ProofOfWorkExceeded` are kept as the bytes that they print.
pub data ConsensusError : Type 0 where
  proof_of_work_exceeded : Hash256 → Bytes → ConsensusError
  invalid_compact_bits : ℕ → ConsensusError
  empty_block missing_coinbase multiple_coinbase : ConsensusError
  merkle_root_mismatch : Hash256 → Hash256 → ConsensusError
  subsidy_exceeded : ℕ → ℕ → ConsensusError
  height_mismatch : ℕ → ℕ → ConsensusError
