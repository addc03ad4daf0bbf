-- ===== src/Policy.antt =====
-- src/policy.ts: the policy engine that decides on every operation, and src/safety.ts, which it asks.
pub mod Paths
pub mod Ports
pub mod Safety
pub mod Engine
pub mod Checks
pub mod Entry
pub mod Combine
pub mod Conditions
pub mod Requests
pub mod Files
pub mod Verdict
pub mod Enforcement
mod Tests
