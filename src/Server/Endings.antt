-- ===== src/Server/Endings.antt =====
-- A whole run of the match workflow on the server's state (lobby-server/src/temporal/workflows.rs over
-- activities.rs).
use steam_lobby.Prelude.{
  Bool, true, false, Option, none, some, ◌≡◌, refl, arith, if◌then◌else◌, Bool-cases, inl, inr, ◌∙◌,
  ap, List, [], ◌∷◌, ◌++◌,
}
use steam_lobby.Core.Types.{PlayerId, Token, MatchStatus}
use steam_lobby.Core.Error.{LobbyError, Result, ok, err}
use steam_lobby.Core.Match.Resolution.{status_of}
use steam_lobby.Store.Numbers.{Numbers}
use steam_lobby.Store.Matches.{update_match}
use steam_lobby.Workflow.{MatchArgs, Activity, Stage, Event, react_all, begun, closed}
use steam_lobby.Workflow.Endings.{is_ending, is_closed}
use steam_lobby.Workflow.Script.{opened, accepted, connected, before, run-IsScript, IsScript}
use steam_lobby.Server.State.{AppState}
use steam_lobby.Server.Frames.{
  reopened, handle_decline-Leaves, resolve_dispute-Leaves, finished-Leaves, refused-Fails,
  finish_match-none, forfeit_won-Leaves, forfeit_refused-Fails, forfeit_lost-Leaves,
}
use steam_lobby.Server.Lifecycle.{Stands}
use steam_lobby.Server.Outcomes.{
  is_player, declined-status, disputed-status, stranger-refused, won-Resolves, lost-Resolves,
}
use steam_lobby.Server.Perform.{
  perform, perform_all, perform_all-single, Reaches, opened-Reaches, accepted-Reaches,
  connected-Reaches,
}

abbrev is_winner : MatchArgs → Option PlayerId → Bool
is_winner p none = false
is_winner p (some w) = is_player p w

-- whether the winner that an ending names, if it needs one, is one of the two players
abbrev pub names_player : MatchArgs → Activity → Bool
names_player p (Activity.finish_match winner _) = is_winner p winner
names_player p (Activity.resolve_start_forfeit (some w)) = is_player p w
names_player p _ = true

-- the status that an ending gives its match
abbrev pub verdict : Activity → MatchStatus
verdict (Activity.finish_match _ _) = MatchStatus.resolved
verdict (Activity.resolve_start_forfeit _) = MatchStatus.resolved
verdict _ = MatchStatus.disputed

module _ {R : Type 0} (p : MatchArgs) (t : Token) where
  -- An ending that names no player is refused and leaves the match Reporting; any other gives the
  -- match its status.
  abbrev pub Concludes : Activity → Result (Unit {0}) × AppState R → Type 0
  Concludes x out =
      if names_player p x
      then (out.0 ≡ ok tt) × (status_of out.1.db t ≡ some (verdict x))
      else (out.0 ≡ err (LobbyError.invalid_report t))
        × (status_of out.1.db t ≡ some MatchStatus.reporting)

module _ {R : Type 0} (N : Numbers R) (p : MatchArgs) (t : Token) (s : AppState R)
    {accepts connects : Bool × Bool} where
  declines :
      (by : Option PlayerId)
      → Stands p t s.db MatchStatus.pending_accept accepts connects
      → Concludes p t (Activity.handle_decline by) (perform N t (Activity.handle_decline by) s)
  unfolding perform
  declines by h =
      let (fine, same) = handle_decline-Leaves t s by h.found h.status_is in
      (fine, ap (λ d. status_of d t) same ∙ declined-status p t s.db by h)

  disputes :
      Stands p t s.db MatchStatus.reporting accepts connects
      → Concludes p t Activity.resolve_dispute (perform N t Activity.resolve_dispute s)
  unfolding perform
  disputes h =
      let (fine, same) = resolve_dispute-Leaves t s h.found h.status_is in
      (fine, ap (λ d. status_of d t) same ∙ disputed-status p t s.db h)

  finishes :
      (w : Option PlayerId) (hashes : List _)
      → Stands p t s.db MatchStatus.reporting accepts connects
      → Concludes p t
          (Activity.finish_match w hashes)
          (perform N t (Activity.finish_match w hashes) s)
  unfolding perform
  finishes none hashes h = rw (finish_match-none N t s) (refl, rw h.found (ap some h.status_is))
  finishes (some w) hashes h = elim (Bool-cases (is_player p w)) [
    | inl plays ↦
        let (o, after, call, ended) = won-Resolves N p t s.db h w plays in
        let (fine, same) = finished-Leaves N t s w o after h.found call in
        rw plays (fine, ap (λ d. status_of d t) same ∙ ended)
    | inr other ↦
        let (failed, same) =
          refused-Fails N t s w _ s.db h.found (stranger-refused N p t s.db h w other) in
        rw other (failed, ap (λ d. status_of d t) same ∙ rw h.found (ap some h.status_is))
  ]

  pub reopened-Stands :
      Stands p t s.db MatchStatus.in_progress accepts connects
      → Stands p t (reopened t s) MatchStatus.reporting accepts connects
  unfolding update_match
  reopened-Stands h = record {
    row = record h.row { status = MatchStatus.reporting; ended_at = some s.db.now };
    found = ground (arith, h.found);
    key = h.key;
    player_a = h.player_a;
    player_b = h.player_b;
    apart = h.apart;
    p2p = h.p2p;
    status_is = ground arith;
    accepted_a = h.accepted_a;
    accepted_b = h.accepted_b;
    connected_a = h.connected_a;
    connected_b = h.connected_b;
    unrated = h.unrated;
  }

  forfeits :
      (w : Option PlayerId)
      → Stands p t s.db MatchStatus.in_progress accepts connects
      → Concludes p t
          (Activity.resolve_start_forfeit w)
          (perform N t (Activity.resolve_start_forfeit w) s)
  unfolding perform
  forfeits none h =
      let (o, after, call, ended) = lost-Resolves N p t (reopened t s) (reopened-Stands h) in
      let (fine, same) = forfeit_lost-Leaves N t s o after call in
      (fine, ap (λ d. status_of d t) same ∙ ended)
  forfeits (some w) h = elim (Bool-cases (is_player p w)) [
    | inl plays ↦
        let (o, after, call, ended) =
          won-Resolves N p t (reopened t s) (reopened-Stands h) w plays in
        let (fine, same) = forfeit_won-Leaves N t s w o after call in
        rw plays (fine, ap (λ d. status_of d t) same ∙ ended)
    | inr other ↦
        let again = reopened-Stands h in
        let (failed, same) =
          forfeit_refused-Fails N t s w _ (reopened t s)
            (stranger-refused N p t (reopened t s) again w other) in
        rw other (failed, ap (λ d. status_of d t) same ∙ rw again.found (ap some again.status_is))
  ]

module _ {R : Type 0} (N : Numbers R) (p : MatchArgs) (t : Token) (s : AppState R) where
  abbrev IsFresh : Type 0
  IsFresh = Stands p t s.db MatchStatus.pending_accept (false, false) (false, false)

  -- What holds of one more activity holds of the whole list.
  pub last :
      (Holds : Result (Unit {0}) × AppState R → Type 0) (xs : List Activity) (x : Activity)
      {status : MatchStatus} {a b : Bool × Bool}
      → Reaches p t N xs s status a b
      → ((s' : AppState R) → Stands p t s'.db status a b → Holds (perform N t x s'))
      → Holds (perform_all N t (xs ++ x ∷ []) s)
  last Holds xs x (s', runs, h) ends = rw (runs (x ∷ []), perform_all-single N t x s') (ends s' h)

  script-Concludes :
      IsFresh
      → (x : Activity) → is_ending x ≡ true
      → Concludes p t x (perform_all N t (before p x ++ x ∷ []) s)
  script-Concludes fresh (Activity.handle_decline by) e =
      last (Concludes p t (Activity.handle_decline by)) opened (Activity.handle_decline by)
        (opened-Reaches N p t s fresh) (λ s' h. declines N p t s' by h)
  script-Concludes fresh (Activity.resolve_start_forfeit w) e =
      last (Concludes p t (Activity.resolve_start_forfeit w)) (accepted p)
        (Activity.resolve_start_forfeit w) (accepted-Reaches N p t s fresh)
        (λ s' h. forfeits N p t s' w h)
  script-Concludes fresh Activity.resolve_dispute e =
      last (Concludes p t Activity.resolve_dispute) (connected p) Activity.resolve_dispute
        (connected-Reaches N p t s fresh) (λ s' h. disputes N p t s' h)
  script-Concludes fresh (Activity.finish_match w hashes) e =
      last (Concludes p t (Activity.finish_match w hashes)) (connected p)
        (Activity.finish_match w hashes) (connected-Reaches N p t s fresh)
        (λ s' h. finishes N p t s' w hashes h)
  script-Concludes fresh Activity.verify_match e = absurd (ground arith)
  script-Concludes fresh Activity.mark_accepts e = absurd (ground arith)
  script-Concludes fresh (Activity.accept_match _) e = absurd (ground arith)
  script-Concludes fresh (Activity.mark_connected _) e = absurd (ground arith)

  closed-Concludes :
      IsFresh
      → (stage : Stage) (sent : List Activity) → IsScript p stage sent
      → is_closed stage ≡ true
      → (x : Activity) × (sent ≡ before p x ++ x ∷ []) × Concludes p t x (perform_all N t sent s)
  closed-Concludes fresh closed sent (x, ending, shape) over =
      (x, shape, rw shape (script-Concludes fresh x ending))
  closed-Concludes fresh Stage.awaiting_accept sent script over = absurd (ground arith)
  closed-Concludes fresh Stage.awaiting_start sent script over = absurd (ground arith)
  closed-Concludes fresh Stage.awaiting_report sent script over = absurd (ground arith)

  -- Whatever signals and timers a run of the workflow has had when it has returned, the activities
  -- that it has sent are the ones that must come before its one ending, and that ending. Performed
  -- one after the other on a peer-to-peer match of two different players, stored under its token,
  -- that is PendingAccept, not accepted or connected by either and without a result, they all
  -- succeed and leave the match with the status of the ending, Disputed or Resolved; except that an
  -- ending whose winner is missing or is not a player of the match is refused with InvalidReport
  -- and leaves the match Reporting.
  pub run_concludes :
      (es : List Event)
      → Stands p t s.db MatchStatus.pending_accept (false, false) (false, false)
      → let r = react_all p es begun in
        is_closed r.stage ≡ true
        → (x : Activity) × (r.sent ≡ before p x ++ x ∷ [])
          × Concludes p t x (perform_all N t r.sent s)
  run_concludes es fresh over =
      let r = react_all p es begun in closed-Concludes fresh r.stage r.sent (run-IsScript p es) over
