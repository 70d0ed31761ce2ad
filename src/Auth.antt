-- ===== src/Auth.antt =====
-- app/modules/auth and app/modules/workspaces: one-time passwords, sessions, tokens, accounts.
pub mod Model
pub mod Queries
pub mod Token
pub mod Registration
pub mod Login
pub mod Sessions
pub mod Account
pub mod Guard
pub mod Validators
pub mod Routes
pub mod SignedIn
pub mod Statuses
