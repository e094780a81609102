-- ===== src/Server/Timeouts.antt =====
-- The timers of a match workflow, on the server's state (lobby-server/src/temporal/workflows.rs over
-- activities.rs).
use mathlib.Core.Option
use steam_lobby.Prelude.{
  Bool, true, false, Option, none, some, ◌==◌, ◌≡◌, refl, sym, arith, if◌then◌else◌, Bool-cases,
  inl, inr, ◌∙◌, ap, List, [], ◌∷◌, ◌++◌,
}
use steam_lobby.Core.Types.{PlayerId, Token, MatchStatus}
use steam_lobby.Core.Error.{LobbyError, Result, ok, err}
use steam_lobby.Core.Callbacks.{default_callbacks}
use steam_lobby.Core.Match.{resolve_agreed, forfeit_both}
use steam_lobby.Core.Match.Resolution.{status_of, results-resolve_agreed, results-forfeit_both}
use steam_lobby.Core.Player.{reporting_complete}
use steam_lobby.Store.Db.{Db}
use steam_lobby.Store.Numbers.{Numbers}
use steam_lobby.Store.Matches.{update_match_status, record_match_event}
use steam_lobby.Ranked.Types.{StoredOutcome}
use steam_lobby.Workflow.{
  MatchArgs, P2PMatchWorkflow, Activity, Stage, Event, Run, react_all, on_timer, only_starter,
  begun, closed, timer, awaiting_accept, awaiting_start, awaiting_report,
}
use steam_lobby.Workflow.Endings.{is_closed, sent-timer}
use steam_lobby.Workflow.Script.{opened, accepted, connected, run-IsScript, IsScript}
use steam_lobby.Server.State.{AppState}
use steam_lobby.Server.Frames.{
  declined, disputed, reopened, handle_decline-Leaves, resolve_dispute-Leaves, forfeit_won-Leaves,
  forfeit_refused-Fails, forfeit_lost-Leaves,
}
use steam_lobby.Server.Lifecycle.{Stands}
use steam_lobby.Server.Outcomes.{
  is_player, declined-status, disputed-status, stranger-refused, won-agreed, won-Resolves,
  lost-both, lost-Resolves,
}
use steam_lobby.Server.Perform.{
  perform, perform_all, opened-Reaches, accepted-Reaches, connected-Reaches,
}
use steam_lobby.Server.Endings.{reopened-Stands, last}

abbrev pub stored : {R : Type 0} → Db R → Token → Option StoredOutcome
stored d t = Option.map (λ r. r.outcome) (d.results t)

module _ {R : Type 0} (p : MatchArgs) (t : Token) where
  -- the answer of the last activity, the status of the match and its result, seen from player A
  abbrev pub Ended :
      Result (Unit {0})
      → MatchStatus
      → Option StoredOutcome
      → Result (Unit {0}) × AppState R
      → Type 0
  Ended answer status outcome out =
      (out.0 ≡ answer) × (status_of out.1.db t ≡ some status) × (stored out.1.db t ≡ outcome)

  -- What a timer leaves of the match, by where the run waited and who had started.
  abbrev pub TimesOut : Stage → List PlayerId → Result (Unit {0}) × AppState R → Type 0
  TimesOut awaiting_accept started = Ended (ok tt) MatchStatus.disputed none
  TimesOut awaiting_start (w ∷ []) =
      if w == p.player_a
      then Ended (ok tt) MatchStatus.resolved (some StoredOutcome.win)
      else if w == p.player_b
      then Ended (ok tt) MatchStatus.resolved (some StoredOutcome.loss)
      else Ended (err (LobbyError.invalid_report t)) MatchStatus.reporting none
  TimesOut awaiting_start _ = Ended (ok tt) MatchStatus.resolved (some StoredOutcome.forfeit)
  TimesOut awaiting_report started = Ended (ok tt) MatchStatus.disputed none
  TimesOut closed started = λ out. Unit

module _ {R : Type 0} (N : Numbers R) (p : MatchArgs) (t : Token) (d : Db R)
    {accepts connects : Bool × Bool} where
  stored-declined :
      (by : Option PlayerId)
      → Stands p t d MatchStatus.pending_accept accepts connects
      → stored (declined t by d) t ≡ none
  unfolding update_match_status record_match_event
  stored-declined by h = ground (arith, h.unrated)

  stored-disputed :
      (h : Stands p t d MatchStatus.reporting accepts connects)
      → stored (disputed t h.row d) t ≡ none
  unfolding update_match_status reporting_complete
  stored-disputed h = ground (arith, h.unrated)

  module _ (h : Stands p t d MatchStatus.reporting accepts connects) where
    stored-won :
        (w : PlayerId)
        → stored (resolve_agreed N default_callbacks h.row (some w) d).1 t
          ≡ some (
              if w == p.player_a
              then StoredOutcome.win
              else if w == p.player_b
              then StoredOutcome.loss
              else StoredOutcome.draw)
    stored-won w = ground (
      arith,
      results-resolve_agreed N h.row d default_callbacks (some w) t,
      h.unrated,
      h.key,
      h.player_a,
      h.player_b,
    )

    stored-lost : stored (forfeit_both N default_callbacks h.row d).1 t ≡ some StoredOutcome.forfeit
    stored-lost =
        ground (arith, results-forfeit_both N h.row d default_callbacks t, h.unrated, h.key)

module _ {R : Type 0} (N : Numbers R) (p : MatchArgs) (t : Token) (s : AppState R)
    {accepts connects : Bool × Bool} where
  declines :
      Stands p t s.db MatchStatus.pending_accept accepts connects
      → Ended p t (ok tt) MatchStatus.disputed none (perform N t (Activity.handle_decline none) s)
  unfolding perform
  declines h =
      let (fine, same) = handle_decline-Leaves t s none h.found h.status_is in
      (
        fine,
        ap (λ d. status_of d t) same ∙ declined-status p t s.db none h,
        ap (λ d. stored d t) same ∙ stored-declined N p t s.db none h,
      )

  disputes :
      Stands p t s.db MatchStatus.reporting accepts connects
      → Ended p t (ok tt) MatchStatus.disputed none (perform N t Activity.resolve_dispute s)
  unfolding perform
  disputes h =
      let (fine, same) = resolve_dispute-Leaves t s h.found h.status_is in
      (
        fine,
        ap (λ d. status_of d t) same ∙ disputed-status p t s.db h,
        ap (λ d. stored d t) same ∙ stored-disputed N p t s.db h,
      )

  module _ (h : Stands p t s.db MatchStatus.in_progress accepts connects) where
    lost :
        Ended p t
          (ok tt)
          MatchStatus.resolved
          (some StoredOutcome.forfeit)
          (perform N t (Activity.resolve_start_forfeit none) s)
    unfolding perform
    lost =
        let again = reopened-Stands N p t s h in
        let (o, after, call, ended) = lost-Resolves N p t (reopened t s) again in
        let (fine, same) = forfeit_lost-Leaves N t s o after call in
        (
          fine,
          ap (λ d. status_of d t) same ∙ ended,
          ap (λ d. stored d t) same
              ∙ ap (λ out. stored out.1 t) (sym call ∙ lost-both N p t (reopened t s) again)
              ∙ stored-lost N p t (reopened t s) again,
        )

    won :
        (w : PlayerId)
        → is_player p w ≡ true
        → Ended p t
            (ok tt)
            MatchStatus.resolved
            (some (
              if w == p.player_a
              then StoredOutcome.win
              else if w == p.player_b
              then StoredOutcome.loss
              else StoredOutcome.draw))
            (perform N t (Activity.resolve_start_forfeit (some w)) s)
    unfolding perform
    won w plays =
        let again = reopened-Stands N p t s h in
        let (o, after, call, ended) = won-Resolves N p t (reopened t s) again w plays in
        let (fine, same) = forfeit_won-Leaves N t s w o after call in
        (
          fine,
          ap (λ d. status_of d t) same ∙ ended,
          ap (λ d. stored d t) same
              ∙ ap (λ out. stored out.1 t)
                  (sym call ∙ won-agreed N p t (reopened t s) again w plays)
              ∙ stored-won N p t (reopened t s) again w,
        )

    refused :
        (w : PlayerId)
        → is_player p w ≡ false
        → Ended p t
            (err (LobbyError.invalid_report t))
            MatchStatus.reporting
            none
            (perform N t (Activity.resolve_start_forfeit (some w)) s)
    unfolding perform
    refused w other =
        let again = reopened-Stands N p t s h in
        let (failed, same) =
          forfeit_refused-Fails N t s w _ (reopened t s)
            (stranger-refused N p t (reopened t s) again w other) in
        (
          failed,
          ap (λ d. status_of d t) same ∙ rw again.found (ap some again.status_is),
          ap (λ d. stored d t) same ∙ rw again.unrated refl,
        )

    one_started :
        (w : PlayerId)
        → TimesOut p t awaiting_start
            (w ∷ [])
            (perform N t (Activity.resolve_start_forfeit (some w)) s)
    one_started w = elim (Bool-cases (w == p.player_a)) [
      | inl first ↦ rw first (simp first at (won w (ground arith)))
      | inr not_first ↦ elim (Bool-cases (w == p.player_b)) [
        | inl second ↦ rw (not_first, second) (simp (not_first, second) at (won w (ground arith)))
        | inr stranger ↦ rw (not_first, stranger) (refused w (ground arith))
      ]
    ]

    forfeits :
        (started : List PlayerId)
        → TimesOut p t awaiting_start started
            (perform N t (Activity.resolve_start_forfeit (only_starter p started)) s)
    forfeits [] = lost
    forfeits (w ∷ []) = one_started w
    forfeits (w ∷ v ∷ more) = lost

module _ {R : Type 0} (N : Numbers R) (p : MatchArgs) (t : Token) (s : AppState R) where
  abbrev waiting_in : Stage → P2PMatchWorkflow → List Activity → Run
  waiting_in stage signals sent = record { stage = stage; signals = signals; sent = sent }

  runs_out :
      Stands p t s.db MatchStatus.pending_accept (false, false) (false, false)
      → (stage : Stage) (signals : P2PMatchWorkflow) (sent : List Activity) → IsScript p stage sent
      → is_closed stage ≡ false
      → TimesOut p t stage signals.started
          (perform_all N t (on_timer p stage (waiting_in stage signals sent)).sent s)
  unfolding on_timer
  runs_out fresh awaiting_accept signals sent script waits = rw script (
      last N p t s (Ended p t (ok tt) MatchStatus.disputed none) opened
        (Activity.handle_decline none) (opened-Reaches N p t s fresh) (λ s' h. declines N p t s' h))
  runs_out fresh awaiting_start signals sent script waits = rw script (
      last N p t s (TimesOut p t awaiting_start signals.started) (accepted p)
        (Activity.resolve_start_forfeit (only_starter p signals.started))
        (accepted-Reaches N p t s fresh) (λ s' h. forfeits N p t s' h signals.started))
  runs_out fresh awaiting_report signals sent script waits = rw script (
      last N p t s (Ended p t (ok tt) MatchStatus.disputed none) (connected p)
        Activity.resolve_dispute (connected-Reaches N p t s fresh) (λ s' h. disputes N p t s' h))
  runs_out fresh closed signals sent script waits = absurd (ground arith)

  -- A peer-to-peer match of two different players is stored under its token, PendingAccept, not
  -- accepted or connected by either and without a result. A timer runs out while the workflow waits.
  -- Whatever signals came before it and whatever comes later, the activities that the workflow has
  -- sent, performed one after the other, leave this: where it waited for the players to accept or
  -- for their reports, the match is Disputed and has no result; where it waited for them to start,
  -- it is Resolved, with the win of the one player that had started, or as a forfeit of both, where
  -- nobody or more than one user had; but where one user alone had started and is not a player of
  -- the match, the forfeit is refused with InvalidReport, and the match stays Reporting without a
  -- result.
  pub run-timer :
      (before later : List Event)
      → Stands p t s.db MatchStatus.pending_accept (false, false) (false, false)
      → let waiting = react_all p before begun in
        is_closed waiting.stage ≡ false
        → TimesOut p t waiting.stage waiting.signals.started
            (perform_all N t (react_all p (before ++ timer ∷ later) begun).sent s)
  run-timer before later fresh waits =
      let waiting = react_all p before begun in
      rw (sent-timer p before later begun)
        (runs_out fresh waiting.stage waiting.signals waiting.sent (run-IsScript p before) waits)
