-- ===== src/Concurrency.antt =====
-- Any number of requests at once: the world, and the executions under way, each between two of its
-- critical sections. A step is one critical section of one request.
pub mod Board
pub mod Holds
pub mod Others
pub mod Sections
pub mod Start
pub mod System
pub mod Soundness
pub mod Reachable
pub mod Closed
pub mod Life
pub mod Log
pub mod RunIds
pub mod Tables
pub mod Success
