-- ===== src/System.antt =====
-- The transfer engine together with the backends of the repository.
pub mod Stuck
pub mod Panels
pub mod Image
