-- ===== src/Core.antt =====
-- Models and helpers that every role uses (src/agent_enrollment_protocol/core).
pub mod Json
pub mod Http
pub mod Claims
pub mod Assertions
