-- ===== src/Tests.antt =====
-- Concrete data, and the theorems of the other modules applied to it.
mod Fixtures
mod CoreExamples
mod RuleExamples
mod ScriptExamples
mod NodeExamples
mod AuthorityExamples
mod MempoolExamples
mod StorageExamples
mod RpcExamples
mod NetworkExamples
mod ServiceExamples
mod MinerExamples
