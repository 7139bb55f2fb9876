-- ===== src/Derived.antt =====
-- utils/derived-state.ts: what a finished simulation hands to the one that depends on it.
pub mod Extract
pub mod Gate
