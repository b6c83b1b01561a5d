-- ===== src/Tests.antt =====
-- Runs of the model on concrete inputs.
pub mod Fixtures
pub mod Sorting
pub mod Lifecycle
pub mod History
pub mod Metrics
pub mod Http
pub mod Job
pub mod Cron
pub mod Config
pub mod Program
pub mod Client
pub mod Server
pub mod System
