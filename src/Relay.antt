-- ===== src/Relay.antt =====
-- relay/server.ts, with relay/http.ts and relay/simulation-gateway.ts: the managed publish relay.
pub mod Env
pub mod Config
pub mod RateLimit
pub mod Bounded
pub mod Idempotency
pub mod Redis
pub mod Lookup
pub mod Body
pub mod Payload
pub mod Execution
pub mod Handler
pub mod Quota
pub mod Gateway
pub mod Vercel
