-- ===== src/Auth.antt =====
-- internal/auth: login throttling.
pub mod Throttle
pub mod Session
pub mod Totp
pub mod Csrf
