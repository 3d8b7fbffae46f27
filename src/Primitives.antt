-- ===== src/Primitives.antt =====
-- crates/aurion-primitives: the canonical codec, 256-bit hashes and the quantum of value.
pub mod Codec
pub mod Hash
pub mod Quantum
