-- ===== src/Tests.antt =====
-- Concrete inputs: proposals, their state overrides, checks and blocks, and requests to the relay.
pub mod Polygon
pub mod Arbitrum
pub mod Vercel
pub mod Engine
pub mod State
pub mod Checks
pub mod Wormhole
pub mod Receiver
pub mod LayerZero
pub mod Relay
pub mod Gateway
