-- ===== src/Gateway/Auth.antt =====
-- services/gateway/features/auth: Redis holds the counters of logins, Tables the rows and the state,
-- Login the login, Users what admins and users do with accounts, Update the change of a user.
pub mod Redis
pub mod Tables
pub mod Login
pub mod Users
pub mod Update
pub mod Kept
pub mod Counters
pub mod Lockout
pub mod Invariants
mod Tests
