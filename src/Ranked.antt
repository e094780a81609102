-- ===== src/Ranked.antt =====
-- The UMVC3 ranked match: lobby-server/src/commands.rs and the finalizer of db/matches.rs.
pub mod Types
pub mod Config
pub mod Events
pub mod Finalize
pub mod Phase
pub mod Evidence
pub mod Apply
pub mod Admission
pub mod Drain
pub mod UserStream
pub mod Pending
pub mod Feed
