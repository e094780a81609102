-- ===== src/Core.antt =====
-- lobby-core: the storage-agnostic matchmaking core.
pub mod Types
pub mod Error
pub mod Action
pub mod Callbacks
pub mod Mmr
pub mod Player
pub mod Match
pub mod Expiry
