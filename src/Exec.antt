-- ===== src/Exec.antt =====
-- Effects and errors of Python code.
mod Defs
pub mod Pure
pub use Defs.*
