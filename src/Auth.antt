-- ===== src/Auth.antt =====
-- src/auth: encrypted tokens, and the guard in front of every request.
pub mod Encryption
pub mod Middleware
