-- ===== src/Pong.antt =====
-- lobby-core/src/pong.rs: the game of Pong, its serialised state and its checksum.
--
-- f64 and its operations are parameters. A u8 wraps as written out, and the 74 bytes of the state are
-- a list of bytes.
pub mod State
pub mod Restore
pub mod Play
pub mod Game
