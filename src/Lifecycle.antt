-- ===== src/Lifecycle.antt =====
-- pkg/lifecycle: the executions, their pods and the pool of workers.
pub mod Disk
pub mod State
pub mod Controller
pub mod Outcome
pub mod Workers
pub mod History
