-- ===== src/Auth.antt =====
-- api/auth.py: passkey registration and login, refresh rotation, logout. Rate limits are left to
-- the limiter: the handlers are what a request that it lets through does.
pub mod Challenge
pub mod Tokens
pub mod Register
pub mod Appends
pub mod Login
pub mod Refresh
