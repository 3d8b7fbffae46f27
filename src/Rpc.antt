-- ===== src/Rpc.antt =====
-- crates/aurion-rpc: what a node and its clients say to one another.
pub mod Frame
pub mod Server
pub mod Template
pub mod Protocol
