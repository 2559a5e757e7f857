-- ===== src/Auth.antt =====
-- The access checks of the backend.
pub mod RateLimit
pub mod ChannelAccess
