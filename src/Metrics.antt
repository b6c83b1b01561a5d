-- ===== src/Metrics.antt =====
-- pkg/metrics: the Prometheus collector. The client library is the interface `Prom`.
pub mod Prom
pub mod Names
pub mod Series
pub mod Collector
