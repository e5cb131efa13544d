-- ===== src/History.antt =====
-- What a step of the program does to the runs, and that nothing else does more.
pub mod Effect
pub mod Setup
pub mod Runs
