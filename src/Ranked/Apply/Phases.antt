-- ===== src/Ranked/Apply/Phases.antt =====
-- The phase of a ranked match under its commands (`apply_match_command`, lobby-server/src/commands.rs).
use steam_lobby.Prelude.{
  ℕ, Option, none, some, Bool, true, false, ◌≡◌, refl, arith, ◌==◌, ◌&&◌, if◌then◌else◌, ltb, leb,
  inl, inr, String, Bool-cases,
}
use steam_lobby.Core.Types.{Uuid, MatchInfo}
use steam_lobby.Store.Db.{Db}
use steam_lobby.Store.Numbers.{Numbers}
use steam_lobby.Store.Rows.{Umvc3Row}
use steam_lobby.Ranked.Types.{
  Umvc3Phase, RankedCommand, Umvc3Verdict, LobbyRole, AbandonTarget, RelativeOutcome,
  TerminalReason, phase_eq,
}
use steam_lobby.Ranked.Config.{Config}
use steam_lobby.Ranked.Finalize.{finalize_umvc3_in_tx, made_terminal}
use steam_lobby.Ranked.Finalize.Once.{finalize-preserves}
use steam_lobby.Ranked.Finalize.Writes.{umvc3-write_verdict, verdict_reason}
use steam_lobby.Ranked.Evidence.{resolve_evidence, verdict_of, by_reporter, settle, no_requeue}
use steam_lobby.Ranked.Phase.{transition_phase, terminal_unrated, save, entering}
use steam_lobby.Ranked.Apply.{
  apply_accept, apply_decline, apply_trying, apply_connect, apply_ready, apply_report,
  apply_abandon, apply_match_command, weigh, reported, report_row, voted, target_id,
}

-- One command's arrows, with staying where it is. A report may lead from Playing to AwaitingReport and
-- from there to the end.
abbrev pub may_enter : Umvc3Phase → Umvc3Phase → Bool
may_enter Umvc3Phase.awaiting_accepted Umvc3Phase.awaiting_trying = true
may_enter Umvc3Phase.awaiting_accepted Umvc3Phase.terminal = true
may_enter Umvc3Phase.awaiting_trying Umvc3Phase.awaiting_connect = true
may_enter Umvc3Phase.awaiting_connect Umvc3Phase.awaiting_ready = true
may_enter Umvc3Phase.awaiting_ready Umvc3Phase.playing = true
may_enter Umvc3Phase.playing Umvc3Phase.awaiting_report = true
may_enter Umvc3Phase.playing Umvc3Phase.terminal = true
may_enter Umvc3Phase.awaiting_report Umvc3Phase.terminal = true
may_enter from to = phase_eq from to

-- The row is there, its phase is one arrow on or the same, and its version has grown if the phase is new
-- and is never less.
abbrev pub moves_on : Umvc3Row → Option Umvc3Row → Bool
moves_on u none = false
moves_on u (some v) =
    may_enter u.phase v.phase
    && (if phase_eq u.phase v.phase
        then leb u.phase_version v.phase_version
        else ltb u.phase_version v.phase_version)

moves_on_refl : (u : Umvc3Row) → moves_on u (some u) ≡ true
moves_on_refl u = ground arith

-- in a phase that decides by evidence
abbrev is_live : Umvc3Phase → Bool
is_live Umvc3Phase.playing = true
is_live Umvc3Phase.awaiting_report = true
is_live _ = false

module _ {R : Type 0} (N : Numbers R) (c : Config) (m : MatchInfo) where
  settle-moves :
      (u v : Umvc3Row) (o : Option Umvc3Verdict) (s : Db R)
      → s.umvc3 m.match_token ≡ some v
      → is_live u.phase ≡ true
      → moves_on u (some v) ≡ true
      → moves_on u ((settle N m o s).1.umvc3 m.match_token) ≡ true
  settle-moves u v none s has_v live on = ground arith
  settle-moves u v (some verdict) s has_v live on = ground (arith, written)
    where
      on_terminal :
          (reason : TerminalReason)
          → is_live u.phase ≡ true
          → moves_on u (some v) ≡ true
          → moves_on u (some (made_terminal reason v)) ≡ true
      on_terminal reason live on = ground arith

      written :
          moves_on u
            ((finalize_umvc3_in_tx N m.match_token verdict no_requeue s).1.umvc3 m.match_token)
          ≡ true
      written =
          finalize-preserves N m.match_token verdict no_requeue s
            (λ after. moves_on u (after.umvc3 m.match_token) ≡ true) (rw has_v on)
            λ m' u' _ _ _.
              rw (umvc3-write_verdict N m' u' verdict no_requeue s, has_v)
                (elim (Bool-cases (m'.match_token == m.match_token)) [
                  | inl same ↦ rw same (on_terminal (verdict_reason verdict) live on)
                  | inr other ↦ rw other on
                ])

  weigh-moves :
      (u v : Umvc3Row) (s : Db R)
      → s.umvc3 m.match_token ≡ some v
      → v.phase ≡ u.phase
      → v.phase_version ≡ u.phase_version
      → is_live u.phase ≡ true
      → moves_on u ((weigh N c m u s).1.umvc3 m.match_token) ≡ true
  unfolding weigh resolve_evidence transition_phase
  weigh-moves u v s has_v same_phase same_version live = ground (
    arith,
    settle-moves u v (verdict_of m u (by_reporter (s.reports m.match_token))) s has_v live
        (ground arith),
    settle-moves u (entering c s.now Umvc3Phase.awaiting_report u)
        (verdict_of m (transition_phase c m Umvc3Phase.awaiting_report u s).0 (
          by_reporter
            ((transition_phase c m Umvc3Phase.awaiting_report u s).1.reports m.match_token)))
        (transition_phase c m Umvc3Phase.awaiting_report u s).1 (ground arith) live,
  )

  accept-moves :
      (user : Uuid) (is_a : Bool) (u : Umvc3Row) (s : Db R)
      → s.umvc3 m.match_token ≡ some u
      → moves_on u ((apply_accept c m user is_a u s).1.umvc3 m.match_token) ≡ true
  unfolding apply_accept transition_phase
  accept-moves user is_a u s has_u = ground arith

  decline-moves :
      (is_a : Bool) (u : Umvc3Row) (s : Db R)
      → s.umvc3 m.match_token ≡ some u
      → moves_on u ((apply_decline N c m is_a u s).1.umvc3 m.match_token) ≡ true
  unfolding apply_decline terminal_unrated
  decline-moves is_a u s has_u = ground arith

  trying-moves :
      (user : Uuid) (is_a : Bool) (a : Uuid) (role : LobbyRole) (lobby : Option String)
      (u : Umvc3Row) (s : Db R)
      → s.umvc3 m.match_token ≡ some u
      → moves_on u ((apply_trying c m user is_a a role lobby u s).1.umvc3 m.match_token) ≡ true
  unfolding apply_trying transition_phase
  trying-moves user true a role lobby u s has_u = ground arith
  trying-moves user false a role lobby u s has_u = ground arith

  connect-moves :
      (is_a : Bool) (a : Uuid) (l p : Bool) (u : Umvc3Row) (s : Db R)
      → s.umvc3 m.match_token ≡ some u
      → moves_on u ((apply_connect c m is_a a l p u s).1.umvc3 m.match_token) ≡ true
  unfolding apply_connect transition_phase
  connect-moves true a l p u s has_u = ground arith
  connect-moves false a l p u s has_u = ground arith

  ready-moves :
      (is_a : Bool) (a : Uuid) (u : Umvc3Row) (s : Db R)
      → s.umvc3 m.match_token ≡ some u
      → moves_on u ((apply_ready c m is_a a u s).1.umvc3 m.match_token) ≡ true
  unfolding apply_ready transition_phase
  ready-moves true a u s has_u = ground arith
  ready-moves false a u s has_u = ground arith

  report-moves :
      (user : Uuid) (o : RelativeOutcome) (x y : Option String) (e : Option ℕ) (u : Umvc3Row)
      (s : Db R)
      → s.umvc3 m.match_token ≡ some u
      → moves_on u ((apply_report N c m user o x y e u s).1.umvc3 m.match_token) ≡ true
  unfolding apply_report
  report-moves user o x y e u s has_u =
      ground (arith, weigh-moves u u (reported m (report_row user o x y e) s) has_u refl refl)

  abandon-moves :
      (user : Uuid) (is_a : Bool) (target : AbandonTarget) (u : Umvc3Row) (s : Db R)
      → s.umvc3 m.match_token ≡ some u
      → moves_on u ((apply_abandon N c m user is_a target u s).1.umvc3 m.match_token) ≡ true
  unfolding apply_abandon
  abandon-moves user true target u s has_u = ground (
    arith,
    weigh-moves (voted true (target_id m user target) u) (voted true (target_id m user target) u)
        (save m (voted true (target_id m user target) u) s) (ground arith) refl refl,
  )
  abandon-moves user false target u s has_u = ground (
    arith,
    weigh-moves (voted false (target_id m user target) u) (voted false (target_id m user target) u)
        (save m (voted false (target_id m user target) u) s) (ground arith) refl refl,
  )

  -- A command applied to the row that the database holds leaves the row there, in the same phase
  -- or one that the phase may lead to; the phase version never falls, and a new phase has a
  -- greater one.
  pub apply_match_command-moves :
      (u : Umvc3Row) (user : Uuid) (command : RankedCommand) (s : Db R)
      → s.umvc3 m.match_token ≡ some u
      → moves_on u ((apply_match_command N c m u user command s).1.umvc3 m.match_token) ≡ true
  unfolding apply_match_command
  apply_match_command-moves u user (RankedCommand.accept _) s has_u =
      ground (arith, moves_on_refl u, accept-moves user (user == m.player_a) u s has_u)
  apply_match_command-moves u user (RankedCommand.decline _) s has_u =
      ground (arith, moves_on_refl u, decline-moves (user == m.player_a) u s has_u)
  apply_match_command-moves u user (RankedCommand.trying _ a r l) s has_u =
      ground (arith, moves_on_refl u, trying-moves user (user == m.player_a) a r l u s has_u)
  apply_match_command-moves u user (RankedCommand.connect _ a l p) s has_u =
      ground (arith, moves_on_refl u, connect-moves (user == m.player_a) a l p u s has_u)
  apply_match_command-moves u user (RankedCommand.ready _ a) s has_u =
      ground (arith, moves_on_refl u, ready-moves (user == m.player_a) a u s has_u)
  apply_match_command-moves u user (RankedCommand.report _ o x y e) s has_u =
      ground (arith, moves_on_refl u, report-moves user o x y e u s has_u)
  apply_match_command-moves u user (RankedCommand.abandon _ target) s has_u =
      ground (arith, moves_on_refl u, abandon-moves user (user == m.player_a) target u s has_u)
  apply_match_command-moves u user (RankedCommand.queue _ _) s has_u =
      ground (arith, moves_on_refl u)
  apply_match_command-moves u user RankedCommand.cancel_queue s has_u =
      ground (arith, moves_on_refl u)
  apply_match_command-moves u user RankedCommand.heartbeat s has_u = ground (arith, moves_on_refl u)
