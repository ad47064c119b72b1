-- ===== src/Observability.antt =====
-- deepticket/observability: the process's own metrics.
pub mod Metrics
