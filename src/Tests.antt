-- ===== src/Tests.antt =====
-- Concrete runs of the theorems, over whole numbers in place of float64.
pub mod Monitors
pub mod Pipelines
pub mod Search
pub mod Servers
pub mod Signals
pub mod Composites
pub mod Scanning
pub mod Spaces
pub mod Stages
pub mod Time
pub mod Vectors
pub mod Queues
pub mod Requests
