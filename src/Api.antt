-- ===== src/Api.antt =====
-- apps/api/src/nextballup_api: the FastAPI application.
mod Result
pub mod Permissions
pub mod Billing
pub mod Videos
pub mod Cancel
pub mod Storage
pub mod Initiate
pub mod Uploads
pub mod Requeue
pub mod Deletion
pub mod RateLimit
pub mod Events
pub mod Teams
pub mod Mfa
pub mod Sessions
pub mod PasswordReset
mod Tests
pub use Result.*
