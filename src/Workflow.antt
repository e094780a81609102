-- ===== src/Workflow.antt =====
-- The durable workflow of an unranked match (`P2PMatchWorkflow`, lobby-server/src/temporal/workflows.rs).
--
-- The workflow sends activities and reacts to events: a signal of a player, or the timer of the
-- phase that it waits in. After each event the conditions that `select!` waits for are looked at
-- again, and a phase whose condition holds already is passed at once. An activity that fails for good
-- ends the workflow with its error; the runs here are those whose activities succeed.
pub mod Endings
pub mod Reports
pub mod Strangers
pub mod Script
use mathlib.Core.Option
use steam_lobby.Prelude.{
  ℕ, String, Bool, true, false, not, ◌&&◌, ◌||◌, ◌==◌, option_eq, Option, none, some, is_some,
  if◌then◌else◌, List, [], ◌∷◌, ◌++◌, any, select, map, length,
}
use steam_lobby.Core.Types.{PlayerId}

pub record MatchArgs : Type 0 where
  pub player_a : PlayerId
  pub player_b : PlayerId

-- the state that the signals write
pub record P2PMatchWorkflow : Type 0 where
  pub accepts : List PlayerId
  pub declined : Bool
  pub declined_by : Option PlayerId
  pub started : List PlayerId
  pub who_won : List (PlayerId × PlayerId)
  pub demo_hashes : List (PlayerId × String)

abbrev pub initial : P2PMatchWorkflow
initial = record {
  accepts = [];
  declined = false;
  declined_by = none;
  started = [];
  who_won = [];
  demo_hashes = [];
}

pub data Activity : Type 0 where
  verify_match mark_accepts resolve_dispute : Activity
  handle_decline : Option PlayerId → Activity
  accept_match mark_connected : PlayerId → Activity
  resolve_start_forfeit : Option PlayerId → Activity
  finish_match : Option PlayerId → List String → Activity

-- where the run waits; `closed` is after its return
pub data Stage : Type 0 where
  awaiting_accept awaiting_start awaiting_report closed : Stage

pub record Run : Type 0 where
  pub stage : Stage
  pub signals : P2PMatchWorkflow
  -- the activities so far
  pub sent : List Activity

pub data Event : Type 0 where
  choice : PlayerId → Bool → Event
  start : PlayerId → Event
  who_won : PlayerId → PlayerId → Event
  demo : PlayerId → String → Event
  timer : Event

abbrev pub has : PlayerId → List PlayerId → Bool
has p = any λ q. q == p

abbrev pub match_choice : PlayerId → Bool → P2PMatchWorkflow → P2PMatchWorkflow
match_choice user true s =
    if has user s.accepts then s else record s { accepts = s.accepts ++ user ∷ [] }
match_choice user false s = record s { declined = true; declined_by = some user }

abbrev pub signal_start : PlayerId → P2PMatchWorkflow → P2PMatchWorkflow
signal_start user s =
    if has user s.started then s else record s { started = s.started ++ user ∷ [] }

-- the last report of a player is the one that stays
abbrev pub signal_who_won : PlayerId → PlayerId → P2PMatchWorkflow → P2PMatchWorkflow
signal_who_won user winner s = record s {
  who_won = select (λ r. not (r.0 == user)) s.who_won ++ (user, winner) ∷ [];
}

abbrev pub submit_demo : PlayerId → String → P2PMatchWorkflow → P2PMatchWorkflow
submit_demo user hash s = record s {
  demo_hashes = select (λ r. not (r.0 == user)) s.demo_hashes ++ (user, hash) ∷ [];
}

-- the loop over who_won: the last entry of a player counts
unfoldable pub winner_by : PlayerId → List (PlayerId × PlayerId) → Option PlayerId
winner_by p [] = none
winner_by p ((user, w) ∷ rs) =
    let rest = winner_by p rs in if is_some rest then rest else if user == p then some w else none

abbrev pub close : List Activity → Run → Run
close activities r = record r { stage = closed; sent = r.sent ++ activities }

module _ (m : MatchArgs) where
  abbrev pub both_accepted : P2PMatchWorkflow → Bool
  both_accepted s = length s.accepts == 2 && has m.player_a s.accepts && has m.player_b s.accepts

  abbrev pub both_started : P2PMatchWorkflow → Bool
  both_started s = has m.player_a s.started && has m.player_b s.started

  abbrev pub agreed : P2PMatchWorkflow → Bool
  agreed s = option_eq (winner_by m.player_a s.who_won) (winner_by m.player_b s.who_won)

  -- phase 2, once its condition is looked at
  unfoldable pub after_accepts : Run → Run
  after_accepts r =
      if r.signals.declined
      then close (handle_decline r.signals.declined_by ∷ []) r
      else if both_accepted r.signals
      then record r {
        stage = awaiting_start;
        sent = r.sent ++ accept_match m.player_a ∷ accept_match m.player_b ∷ mark_accepts ∷ [];
      }
      else r

  -- phase 3
  unfoldable pub after_starts : Run → Run
  after_starts r =
      if both_started r.signals
      then record r {
        stage = awaiting_report;
        sent = r.sent ++ mark_connected m.player_a ∷ mark_connected m.player_b ∷ [];
      }
      else r

  -- phase 4
  unfoldable pub after_reports : Run → Run
  unfolding winner_by
  after_reports r =
      if length r.signals.who_won == 2
      then (if agreed r.signals
          then close
              (finish_match (winner_by m.player_a r.signals.who_won)
                  (map (λ d. d.1) r.signals.demo_hashes)
                ∷ [])
              r
          else close (resolve_dispute ∷ []) r)
      else r

  abbrev pub at_accept : Stage → Run → Run
  at_accept awaiting_accept r = after_accepts r
  at_accept _ r = r

  abbrev pub at_start : Stage → Run → Run
  at_start awaiting_start r = after_starts r
  at_start _ r = r

  abbrev pub at_report : Stage → Run → Run
  at_report awaiting_report r = after_reports r
  at_report _ r = r

  -- every condition in turn, as far as they hold
  unfoldable pub settle : Run → Run
  unfolding after_accepts after_starts after_reports
  settle r0 =
      let r1 = at_accept r0.stage r0 in let r2 = at_start r1.stage r1 in at_report r2.stage r2

  abbrev pub only_starter : List PlayerId → Option PlayerId
  only_starter (p ∷ []) = some p
  only_starter _ = none

  -- the timer of the phase
  unfoldable pub on_timer : Stage → Run → Run
  on_timer awaiting_accept r = close (handle_decline none ∷ []) r
  on_timer awaiting_start r = close (resolve_start_forfeit (only_starter r.signals.started) ∷ []) r
  on_timer awaiting_report r = close (resolve_dispute ∷ []) r
  on_timer closed r = r

  abbrev signalled : (P2PMatchWorkflow → P2PMatchWorkflow) → Run → Run
  signalled f r = settle (record r { signals = f r.signals })

  unfoldable pub react : Event → Run → Run
  unfolding settle on_timer
  react (choice user accept) r = signalled (match_choice user accept) r
  react (start user) r = signalled (signal_start user) r
  react (who_won user winner) r = signalled (signal_who_won user winner) r
  react (demo user hash) r = signalled (submit_demo user hash) r
  react timer r = on_timer r.stage r

  unfoldable pub react_all : List Event → Run → Run
  unfolding react
  react_all [] r = r
  react_all (e ∷ es) r = react_all es (react e r)

-- `run` has sent its first activity and waits for the players to accept
abbrev pub begun : Run
begun = record { stage = awaiting_accept; signals = initial; sent = verify_match ∷ [] }
