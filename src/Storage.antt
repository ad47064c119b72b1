-- ===== src/Storage.antt =====
-- storage
pub mod Files
pub mod Local
pub mod Laws
pub mod Ranks
pub mod Index
