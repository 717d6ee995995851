-- ===== src/Service.antt =====
-- The Service role (src/agent_enrollment_protocol/service).
mod Examples
pub mod Time
pub mod Replay
pub mod Types
pub mod Enrollments
pub mod Idempotency
pub mod Limits
pub mod Problem
pub mod Settings
pub mod Assertions
pub mod Effects
pub mod Responses
pub mod Lifecycle
pub mod Idempotent
pub mod Commands
pub mod Revocation
pub mod Credentials
pub mod Resources
