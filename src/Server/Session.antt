-- ===== src/Server/Session.antt =====
-- `UserSessionWorkflow` of lobby-server/src/temporal/workflows.rs: the session of one connection.
--
-- A signal's handler runs until it waits for an activity. The activity is executed at some later
-- time, and its handler resumed at some time after that; meanwhile other signals may arrive and
-- other handlers go on. So each of the three is a step of its own. A world begins with `run_syncs`
-- waited for (`started`).
pub mod Entries
pub mod Own
pub mod Race
use mathlib.Core.Option
use steam_lobby.Prelude.{
  Bool, true, false, Option, none, some, is_some, ◌==◌, ◌≡◌, if◌then◌else◌, List, [], ◌∷◌, ◌++◌,
}
use steam_lobby.Core.Types.{PlayerId, Token, PlayerState, QueueEntry}
use steam_lobby.Core.Error.{Result, ok, err}
use steam_lobby.Store.Numbers.{Numbers}
use steam_lobby.Server.State.{
  AppState, QueueArgs, SessionSignal, queue, unqueue, disconnect, queue_expired, match_found,
  match_complete,
}
use steam_lobby.Server.Activities.{
  SessionSync, set_player_state, enter_queue, leave_queue, sync_session,
}

pub record UserSessionWorkflow : Type 0 where
  pub user_id : PlayerId
  pub queued : Option QueueArgs
  pub in_match : Bool
  pub last_match : Option Token
  pub disconnected : Bool

abbrev pub init : PlayerId → UserSessionWorkflow
init user = record {
  user_id = user;
  queued = none;
  in_match = false;
  last_match = none;
  disconnected = false;
}

-- the activity that a handler, or the run itself, waits for
pub data Call : Type 0 where
  run_syncs unqueue_syncs : Call
  queue_sets queue_enters unqueue_leaves unqueue_resets : QueueArgs → Call
  found_sets complete_sets : Token → Call

abbrev pub of_entry : {R : Type 0} → QueueEntry R → QueueArgs
of_entry q = record { user_id = q.user_id; mode = q.game_mode; difficulty = q.difficulty }

-- what `sync_session` found: none where it failed, or where the call was of another activity
abbrev pub Answer : Type 0
Answer = Option (Option QueueArgs)

-- a handler whose activity is waited for, or done
pub data Waiting : Type 0 where
  for_call : Call → Waiting
  with_answer : Call → Answer → Waiting

abbrev unless_queued : UserSessionWorkflow → List Call → List Call
unless_queued s calls = if is_some s.queued then [] else calls

abbrev leave_first : UserSessionWorkflow → Option QueueArgs → UserSessionWorkflow × List Call
leave_first s (some q) = (record s { queued = none }, unqueue_leaves q ∷ [])
leave_first s none = (s, unqueue_syncs ∷ [])

-- whether the user that a signal carries, if any, is the session's
abbrev pub is_own : PlayerId → SessionSignal → Bool
is_own user (queue args) = args.user_id == user
is_own user _ = true

-- a signal arrives: its handler up to the first activity
unfoldable pub arrive : SessionSignal → UserSessionWorkflow → UserSessionWorkflow × List Call
arrive (queue args) s = (s, unless_queued s (queue_sets args ∷ []))
arrive unqueue s = leave_first s s.queued
arrive (match_found t) s = (s, found_sets t ∷ [])
arrive (match_complete t) s = (s, complete_sets t ∷ [])
arrive disconnect s = (record s { disconnected = true }, [])
arrive queue_expired s = (record s { queued = none }, [])

module _ {R : Type 0} where
  abbrev found_entry : Result (SessionSync R) → Answer
  found_entry (ok sync) = some (Option.map of_entry sync.queued)
  found_entry (err _) = none

  abbrev pub synced : PlayerId → AppState R → Answer × AppState R
  synced user a = let (found, after) = sync_session user a in (found_entry found, after)

module _ {R : Type 0} (N : Numbers R) where
  -- an activity is executed; its error is ignored by the handlers
  unfoldable pub execute : UserSessionWorkflow → Call → AppState R → Answer × AppState R
  unfolding set_player_state enter_queue leave_queue sync_session
  execute s run_syncs a = synced s.user_id a
  execute s unqueue_syncs a = synced s.user_id a
  execute s (queue_sets args) a = (none, (set_player_state args.user_id PlayerState.queueing a).1)
  execute s (queue_enters args) a = (none, (enter_queue N args a).1)
  execute s (unqueue_leaves args) a = (none, (leave_queue args a).1)
  execute s (unqueue_resets args) a =
      (none, (set_player_state args.user_id PlayerState.in_menus a).1)
  execute s (found_sets t) a = (none, (set_player_state s.user_id PlayerState.in_match a).1)
  execute s (complete_sets t) a = (none, (set_player_state s.user_id PlayerState.in_menus a).1)

abbrev adopt : UserSessionWorkflow → Answer → UserSessionWorkflow
adopt s none = s
adopt s (some found) = record s { queued = found }

abbrev leave_found : UserSessionWorkflow → Answer → UserSessionWorkflow × List Call
leave_found s (some (some q)) = (record s { queued = none }, unqueue_leaves q ∷ [])
leave_found s _ = (s, [])

-- a handler goes on, up to its next activity
unfoldable pub resume : Call → Answer → UserSessionWorkflow → UserSessionWorkflow × List Call
resume run_syncs found s = (adopt s found, [])
resume unqueue_syncs found s = leave_found s found
resume (queue_sets args) _ s = (s, queue_enters args ∷ [])
resume (queue_enters args) _ s = (record s { queued = some args }, [])
resume (unqueue_leaves args) _ s = (s, unless_queued s (unqueue_resets args ∷ []))
resume (unqueue_resets args) _ s = (s, [])
resume (found_sets t) _ s = (record s { queued = none; in_match = true; last_match = some t }, [])
resume (complete_sets t) _ s = (record s { in_match = false; last_match = none }, [])

pub record World (R : Type 0) : Type 0 where
  pub session : UserSessionWorkflow
  pub server : AppState R
  pub waiting : List Waiting
  -- whether the run has returned
  pub over : Bool

-- the run has begun: it waits for `sync_session`
abbrev pub started : {R : Type 0} → PlayerId → AppState R → World R
started user a = record {
  session = init user;
  server = a;
  waiting = for_call run_syncs ∷ [];
  over = false;
}

abbrev pub wait_for : List Call → List Waiting
wait_for [] = []
wait_for (c ∷ cs) = for_call c ∷ wait_for cs

module _ {R : Type 0} (N : Numbers R) where
  abbrev pub arrived : SessionSignal → World R → World R
  arrived signal w =
      let (session, calls) = arrive signal w.session in
      record w { session = session; waiting = w.waiting ++ wait_for calls }

  abbrev pub executed : Call → List Waiting → List Waiting → World R → World R
  executed c xs ys w =
      let (answer, server) = execute N w.session c w.server in
      record w { server = server; waiting = xs ++ with_answer c answer ∷ ys }

  abbrev pub resumed : Call → Answer → List Waiting → List Waiting → World R → World R
  resumed c answer xs ys w =
      let (session, calls) = resume c answer w.session in
      record w { session = session; waiting = xs ++ ys ++ wait_for calls }

  -- Any signal, any activity that is waited for, any handler whose activity is done, and the return
  -- of the run, on the signal `disconnect` or after 24 hours. A `queue` signal carries the session's
  -- own user (`signal_queue`, signals.rs).
  pub data Step : World R → World R → Type 0 where
    arrives :
        (signal : SessionSignal) (w : World R)
        → is_own w.session.user_id signal ≡ true
        → w.over ≡ false
        → Step w (arrived signal w)
    executes :
        (c : Call) (xs ys : List Waiting) (w : World R)
        → w.waiting ≡ xs ++ for_call c ∷ ys
        → Step w (executed c xs ys w)
    resumes :
        (c : Call) (answer : Answer) (xs ys : List Waiting) (w : World R)
        → w.waiting ≡ xs ++ with_answer c answer ∷ ys
        → w.over ≡ false
        → Step w (resumed c answer xs ys w)
    returns : (w : World R) → Step w (record w { over = true })

  pub data Steps : World R → World R → Type 0 where
    done : (w : World R) → Steps w w
    then_step : {u v w : World R} → Steps u v → Step v w → Steps u w
