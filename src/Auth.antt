-- ===== src/Auth.antt =====
-- services/auth-service/src/auth: credentials, sessions and passwords.
pub mod Store
pub mod Lockout
pub mod Scope
pub mod Sessions
pub mod Context
pub mod Passwords
pub mod Calls
pub mod Tests
pub mod Duration
pub mod Gone
