-- ===== src/Setup.antt =====
-- firmware/src/wifi_provision.h: how a terminal is set up over its own access point.
pub mod Hold
pub mod Fallback
pub mod Fields
pub mod Form
pub mod Access
pub mod Http
pub mod Pages
pub mod Portal
pub mod SoftAp
