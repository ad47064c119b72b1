-- ===== src/Examples.antt =====
-- Runs of the definitions on concrete inputs.
mod Fixtures
mod Runs
mod Calls
mod Others
mod Texts
mod Tasks
