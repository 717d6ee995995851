-- ===== src/Platform.antt =====
-- The Platform role (src/agent_enrollment_protocol/platform).
pub mod Types
pub mod Identities
pub mod Listing
pub mod Idempotency
pub mod Settings
pub mod Steps
pub mod Requests
pub mod Directory
pub mod Signing
pub mod Verification
pub mod Commands
mod Examples
