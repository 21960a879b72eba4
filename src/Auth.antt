-- ===== src/Auth.antt =====
-- Sessions, rate limits and one-time passwords of backend/app.
pub mod Limiter
pub mod Otp
pub mod Session
