-- ===== src/Output.antt =====
-- deepticket/layers/output: what is made of an agent's stream.
pub mod Confidence
pub mod Chunks
