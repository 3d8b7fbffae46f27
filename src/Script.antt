-- ===== src/Script.antt =====
-- crates/aurion-script: the stack machine that runs locking and unlocking scripts.
pub mod Error
pub mod Opcode
pub mod Stack
pub mod Number
pub mod Engine
