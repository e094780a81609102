-- ===== src/Pairing.antt =====
-- Pairing from the queue: `pair_next_match` of lobby-server/src/db/queue.rs, with `search_band`
-- (lobby-core/src/queue.rs) and `mmr_offset` (lobby-core/src/types.rs).
--
-- The candidates are read without a lock; `claim` is one transaction on two of them, which looks at
-- both players again. `NOW()` and `Utc::now()` are the clock of the database.
pub mod Form
pub mod Band
pub mod Claim
pub mod Next
pub mod Claims
pub mod Order
pub mod Search
pub mod Complete
