-- ===== src/Eutxo.antt =====
-- crates/aurion-eutxo: extended outputs, and the rules on when and at what fee they are spent.
pub mod Error
pub mod State
pub mod Locktime
pub mod Maturity
pub mod Fee
pub mod Rules
