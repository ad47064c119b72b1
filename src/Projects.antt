-- ===== src/Projects.antt =====
-- deepticket/projects: who may see which project.
pub mod Permissions
pub mod Merge
