-- ===== src/Lib.antt =====
-- The matchmaking lobby: how players queue, meet, play, report and are rated.
--
-- The program. `lobby-core` is the logic that every game mode shares: the state machine of a player
-- (`PlayerManager`) and the life of a match (`MatchManager`), written against store traits. `lobby-server`
-- implements the stores over PostgreSQL, pairs the players that wait (`pair_next_match`), signs players in,
-- runs the workflow of a match, and adds the ranked mode `umvc3_1v1`, whose players send commands:
-- a command is first admitted to an inbox and answered with a receipt (`dispatch`), later a worker drains the
-- inbox of a match in order (`drain_match`) and applies each command to the match's phase, and timers end a
-- phase that takes too long (`expire`). Reports and abandon votes are weighed (`resolve_evidence`), and one
-- function writes a ranked result (`finalize_umvc3_in_tx`).
--
-- The model, by file:
--   Core/Types, Core/Error, Core/Callbacks   lobby-core/src/types.rs, error.rs, traits.rs
--   Core/Action                              an async method over the database that may return an error
--   Core/Player (Machine)                    lobby-core/src/player.rs, method by method
--   Core/Match (Resolution, Lifecycle, Reports, Once)
--                                            lobby-core/src/match_lifecycle.rs, method by method
--   Core/Expiry (Overdue), Core/Mmr          lobby-core/src/match_expiry.rs, mmr.rs
--   Store/Db, Store/Rows                     the tables of lobby-server/migrations, the clock and the UUIDs
--   Store/Numbers                            f64 and the crate skillratings, as a parameter
--   Store/Players, Store/Matches, Store/Queue
--                                            the store traits of lobby-server/src/db
--   Ranked/Types, Ranked/Config              the types of lobby-server/src/commands.rs, and its settings
--   Ranked/Admission (Once)                  dispatch, replay_receipt, admit_user_command,
--                                            admit_match_command, validate_match_admission
--   Ranked/Events (Numbering)                emit_recipient_events
--   Ranked/Phase                             transition_phase, terminal_unrated
--   Ranked/Evidence (Verdicts)               resolve_evidence
--   Ranked/Apply (Refusals, Phases, Admitted)
--                                            apply_match_command, one function for each command
--   Ranked/Finalize (Once, Writes)           finalize_umvc3_in_tx of lobby-server/src/db/matches.rs
--   Ranked/Drain (Progress, Order, Places, Timers)
--                                           drain_one_match_command, drain_match, expire, load_match_state
--   Ranked/UserStream                        drain_one_user_command
--   Ranked/Pending (Progress, Stuck)         drain_pending
--   Ranked/Feed (Pages)                      get_events
--   Pairing (Band, Form, Claim, Next, and Claims, Order, Search, Complete for the proofs)
--                                            search_band, mmr_offset, and pair_next_match of
--                                            lobby-server/src/db/queue.rs
--   Store/Text, Store/Row                    the texts of enums and the row of a match
--                                            (lobby-server/src/db/mod.rs, commands.rs)
--   Auth (State, Sessions, Accounts, Links, Confirm, Steps)
--                                            lobby-server/src/db/sessions.rs, and the accounts of
--                                            lobby-server/src/db/players.rs
--   Auth/Token                               revalidate_session of lobby-server/src/routes.rs
--   Auth (Once, Dead, Owners, Changes, Ownership, Linking)
--                                            the proofs on them
--   Rps (Rounds, Invariant, Time)            the referee of lobby-server/src/rps.rs
--   Pong (State, Play, and Restore, Game for the proofs)
--                                            lobby-core/src/pong.rs
--   Workflow (Endings, Reports, Strangers, Script)
--                                            P2PMatchWorkflow of lobby-server/src/temporal/workflows.rs
--   Server/State, Server/Signals             AppState of lobby-server/src/state.rs with what the server sends,
--                                            and the requests to Temporal (temporal/signals.rs, workflows.rs,
--                                            schedule.rs, umvc3.rs)
--   Server/Activities (and Frames, Lifecycle, Outcomes, Perform, Endings, Timeouts, Retry, Intruders)
--                                            lobby-server/src/temporal/activities.rs, and a match workflow run
--                                            on them
--   Server/Session (Entries, Own, Race)      UserSessionWorkflow of lobby-server/src/temporal/workflows.rs
--   Server/Socket (Connections, Relay)       lobby-server/src/ws.rs after the sign-in
--   Server/Ticker (Sweep)                    lobby-server/src/ticker.rs
--   Server/Umvc3                             the ranked workflow of lobby-server/src/temporal/umvc3.rs
--   Server/Webhook                           game_result of lobby-server/src/routes.rs
--   RateLimit (Window)                       lobby-server/src/rate_limit.rs
--   Tests and its children                   a small lobby, and the theorems at concrete inputs
--
-- How it is modelled. The database is one record of tables (Store/Db), and an operation is a function from it
-- to a result and the database afterwards. What was written before an error stays written, except where the
-- code runs in a transaction that it does not commit (`transaction`). Row locks and advisory locks order the
-- transactions of different callers, so that one operation is one step; two of them are composed by running
-- one after the other. The clock stands still within an operation. A UUID, a match token and a lobby-side
-- identifier are natural numbers, a time is a count of microseconds, and counters of the database do not
-- overflow (64 bits). The hooks of a game (`GameCallbacks`), the arithmetic of f64, the rating engine and the
-- hash of a command's payload are parameters.
--
-- Fuel. `drain_match` and `expire` loop until a match has no pending command. The loop of the model takes the
-- number of pending commands and one more as fuel, since a round that goes on has decided one of them. So
-- does the loop of `drain_pending`, with the pending commands of all streams. A match workflow and a ranked
-- workflow may wait without end, and run on a list of turns.
--
-- Interleavings. The candidates for a pair are read before the transaction that claims them, so a claim is
-- modelled on any two players in any state of the database. Everything that signing in can do is one step
-- relation (Auth/Steps), and what holds at every later state is shown by induction on its steps. A match
-- workflow reads any list of signals and timers; the referee of rock, paper, scissors any list of turns. The
-- handlers of a session workflow, its signals and its activities are steps that may come in any order.
--
-- Not modelled: connection failures and foreign keys of PostgreSQL, JSON formats, the rest
-- of HTTP (lobby-server/src/routes.rs, ranked_routes.rs), the upgrade and the sign-in of a WebSocket, the broadcast of
-- queue statistics, the Temporal SDK and its worker (temporal/mod.rs), the calls to Steam and Discord, the
-- tasks around the two small games (lobby-server/src/pong.rs, and finish of rps.rs), the other reads that
-- only feed the clients, and the client library. In the runs of a match workflow alone (Workflow) its activities
-- succeed; Server/Endings says which of them do.

pub mod Prelude
pub mod Core
pub mod Store
pub mod Ranked
pub mod Auth
pub mod Pairing
pub mod Pong
pub mod RateLimit
pub mod Rps
pub mod Workflow
pub mod Server
pub mod Tests
