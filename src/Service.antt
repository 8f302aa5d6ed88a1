-- ===== src/Service.antt =====
-- internal/service: notifications and accounts.
pub mod Profile
pub mod Notifications
pub mod Enqueue
pub mod Accounts
pub mod Sessions
pub mod Login
pub mod Signup
pub mod Rotation
pub mod Ledger
pub mod Bearer
pub mod Lists
pub mod Race
pub mod Tables
