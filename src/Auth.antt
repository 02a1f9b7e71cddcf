-- ===== src/Auth.antt =====
-- Authentication by a one-time code (app_base/modules/auth).
pub mod Entities
pub mod Service
pub mod Codes
pub mod Confirmed
mod Tests
