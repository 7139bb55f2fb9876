-- ===== src/Wormhole.antt =====
-- The Wormhole bridge: the lanes that are supported, and what the code does with them.
pub mod Lane
pub mod Matrix
pub mod Capabilities
pub mod Parser
pub mod Receiver
pub mod Execution
