-- ===== src/Ota.antt =====
-- firmware/src/ota_verify.h and ota_guard.h: the versions that are signed and compared, and the
-- guard against downgrades and images that do not work.
pub mod Version
pub mod Guard
pub mod Image
pub mod Manifest
