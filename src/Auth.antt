-- ===== src/Auth.antt =====
-- Package auth: sessions.
pub mod Session
pub mod Password
pub mod Service
