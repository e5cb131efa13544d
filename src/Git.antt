-- ===== src/Git.antt =====
-- The Git gateway of dtu/git.go.
pub mod Gate
pub mod Push
pub mod Access
pub mod Touched
pub mod Queued
pub mod Refreshed
pub mod Serve
