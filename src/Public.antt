-- ===== src/Public.antt =====
-- The public API of dtu/public.go.
pub mod Api
pub mod Auth
pub mod Tokens
pub mod Actions
pub mod ActionCases
pub mod Pulls
pub mod Paths
pub mod Handler
pub mod Signing
pub mod Random
pub mod Created
pub mod Outcomes
pub mod Unsupported
