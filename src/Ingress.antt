-- ===== src/Ingress.antt =====
-- The tickets that other systems push: the pipeline, the jobs, and the queue of the workers.
pub mod Pipeline
pub mod Jobs
pub mod Outbound
pub mod Runner
pub mod Queue
