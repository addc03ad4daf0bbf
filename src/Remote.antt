-- ===== src/Remote.antt =====
-- The remote control plane, src/remote.
pub mod Types
pub mod Nonces
pub mod PolicyGuard
pub mod Connections
pub mod Scopes
pub mod Store
pub mod AgentHandler
pub mod ControlPlane
pub mod OAuth
