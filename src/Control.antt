-- ===== src/Control.antt =====
-- The control API of dtu/control.go. Each handler is a function from the world before and the
-- request's body to the world after and the reply; its critical section is one step.
pub mod Setup
pub mod Pulls
pub mod Cases
pub mod Atomic
pub mod Lookup
pub mod PullCases
pub mod Routes
pub mod Client
