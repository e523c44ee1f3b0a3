-- ===== src/Drm/Atomic/Commits.antt =====
-- What an atomic commit of drm_linux.c does to the property store.
pub mod Store
pub mod Reports
pub mod Flags
pub mod Planes
