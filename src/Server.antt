-- ===== src/Server.antt =====
-- The server around the stores: its shared state, the Temporal activities, the session workflow, the
-- WebSocket handler and the ticker (lobby-server/src/state.rs, ws.rs, ticker.rs, temporal/).
pub mod State
pub mod Signals
pub mod Activities
pub mod Lifecycle
pub mod Frames
pub mod Outcomes
pub mod Perform
pub mod Endings
pub mod Retry
pub mod Intruders
pub mod Socket
pub mod Ticker
pub mod Umvc3
pub mod Timeouts
pub mod Webhook
pub mod Session
