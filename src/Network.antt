-- ===== src/Network.antt =====
-- crates/aurion-network: the frames in which peers exchange blocks and transactions.
pub mod Frame
pub mod Gossip
