-- ===== src/Drm.antt =====
-- The DRM/KMS emulation of dependencies/libs/iland/upstream/shims/drm/drm/src/drm_linux.c.
pub mod Buffers
pub mod Modes
pub mod Props
pub mod Blobs
pub mod Device
pub mod Flip
pub mod Objects
pub mod Atomic
pub mod Stubs
