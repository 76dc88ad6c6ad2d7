-- ===== src/Provision.antt =====
-- firmware/src/provision.h: how a terminal gets its device secret from the gateway.
pub mod Base64
pub mod Token
pub mod Reply
