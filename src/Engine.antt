-- ===== src/Engine.antt =====
-- utils/cross-chain/tenderly-execution-engine.ts: from a proposal's calls to destination results.
pub mod Env
pub mod Sorting
pub mod Job
pub mod Run
pub mod Ordering
