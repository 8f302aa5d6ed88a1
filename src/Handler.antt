-- ===== src/Handler.antt =====
-- internal/handler
pub mod Limits
pub mod Notifications
pub mod Accounts
pub mod Health
pub mod Owner
pub mod Digits
pub mod Refusals
pub mod Requests
