-- ===== src/Store.antt =====
-- PostgresStore (lobby-server/src/db): the tables and the queries on them.
pub mod Rows
pub mod Text
pub mod Row
pub mod Numbers
pub mod Db
pub mod Players
pub mod Matches
pub mod Queue
