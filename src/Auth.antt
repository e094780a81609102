-- ===== src/Auth.antt =====
-- Signing in: the sessions of lobby-server/src/db/sessions.rs and the accounts of
-- lobby-server/src/db/players.rs.
pub mod State
pub mod Sessions
pub mod Accounts
pub mod Links
pub mod Confirm
pub mod Once
pub mod Steps
pub mod Dead
pub mod Token
pub mod Linking
pub mod Owners
pub mod Changes
pub mod Ownership
