-- ===== src/Platform/Examples.antt =====
-- The theorems about the Platform, on concrete data.
pub mod Data
mod Stores
mod Requests
