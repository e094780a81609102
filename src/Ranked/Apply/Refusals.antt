-- ===== src/Ranked/Apply/Refusals.antt =====
-- Refused commands, and the tables that `apply_match_command` does not touch
-- (lobby-server/src/commands.rs).
use steam_lobby.Prelude.{ℕ, Option, none, some, Bool, true, false, ◌≡◌, refl, arith, ◌==◌, String}
use steam_lobby.Core.Types.{Uuid, Token, MatchInfo}
use steam_lobby.Core.Error.{Code}
use steam_lobby.Store.Db.{Db}
use steam_lobby.Store.Numbers.{Numbers}
use steam_lobby.Store.Rows.{Umvc3Row}
use steam_lobby.Ranked.Types.{
  RankedCommand, Umvc3Verdict, RequeueDecision, LobbyRole, AbandonTarget, RelativeOutcome,
  Umvc3Phase,
}
use steam_lobby.Ranked.Config.{Config}
use steam_lobby.Ranked.Finalize.{finalize_umvc3_in_tx}
use steam_lobby.Ranked.Finalize.Once.{finalize-preserves}
use steam_lobby.Ranked.Finalize.Writes.{inbox-write_verdict}
use steam_lobby.Ranked.Evidence.{resolve_evidence, verdict_of, by_reporter, settle, no_requeue}
use steam_lobby.Ranked.Phase.{transition_phase, terminal_unrated, save}
use steam_lobby.Ranked.Apply.{
  apply_accept, apply_decline, apply_trying, apply_connect, apply_ready, apply_report,
  apply_abandon, apply_match_command, weigh, reported, report_row, voted, target_id,
}

module _ {R : Type 0} (N : Numbers R) where
  pub inbox-finalize :
      (t : Token) (v : Umvc3Verdict) (q : RequeueDecision) (s : Db R)
      → (finalize_umvc3_in_tx N t v q s).1.inbox ≡ s.inbox
  inbox-finalize t v q s =
      finalize-preserves N t v q s (λ after. after.inbox ≡ s.inbox) refl
        λ m u _ _ _. inbox-write_verdict N m u v q s

  inbox-resolve_evidence :
      (m : MatchInfo) (u : Umvc3Row) (s : Db R) → (resolve_evidence N m u s).1.inbox ≡ s.inbox
  unfolding resolve_evidence
  inbox-resolve_evidence m u s =
      ground (arith, go (verdict_of m u (by_reporter (s.reports m.match_token))))
    where
      go : (o : Option Umvc3Verdict) → (settle N m o s).1.inbox ≡ s.inbox
      go none = refl
      go (some v) = ground (arith, inbox-finalize m.match_token v no_requeue s)

module _ {R : Type 0} (N : Numbers R) (c : Config) (m : MatchInfo) where
  inbox-weigh : (u : Umvc3Row) (s : Db R) → (weigh N c m u s).1.inbox ≡ s.inbox
  unfolding weigh transition_phase
  inbox-weigh u s = ground (
    arith,
    inbox-resolve_evidence N m u s,
    inbox-resolve_evidence N m (transition_phase c m Umvc3Phase.awaiting_report u s).0
        (transition_phase c m Umvc3Phase.awaiting_report u s).1,
  )

  inbox-accept :
      (user : Uuid) (is_a : Bool) (u : Umvc3Row) (s : Db R)
      → (apply_accept c m user is_a u s).1.inbox ≡ s.inbox
  unfolding apply_accept transition_phase
  inbox-accept user is_a u s = ground arith

  inbox-decline :
      (is_a : Bool) (u : Umvc3Row) (s : Db R) → (apply_decline N c m is_a u s).1.inbox ≡ s.inbox
  unfolding apply_decline terminal_unrated
  inbox-decline is_a u s = ground arith

  inbox-trying :
      (user : Uuid) (is_a : Bool) (a : Uuid) (role : LobbyRole) (lobby : Option String)
      (u : Umvc3Row) (s : Db R)
      → (apply_trying c m user is_a a role lobby u s).1.inbox ≡ s.inbox
  unfolding apply_trying transition_phase
  inbox-trying user true a role lobby u s = ground arith
  inbox-trying user false a role lobby u s = ground arith

  inbox-connect :
      (is_a : Bool) (a : Uuid) (l p : Bool) (u : Umvc3Row) (s : Db R)
      → (apply_connect c m is_a a l p u s).1.inbox ≡ s.inbox
  unfolding apply_connect transition_phase
  inbox-connect is_a a l p u s = ground arith

  inbox-ready :
      (is_a : Bool) (a : Uuid) (u : Umvc3Row) (s : Db R)
      → (apply_ready c m is_a a u s).1.inbox ≡ s.inbox
  unfolding apply_ready transition_phase
  inbox-ready is_a a u s = ground arith

  inbox-report :
      (user : Uuid) (o : RelativeOutcome) (x y : Option String) (e : Option ℕ) (u : Umvc3Row)
      (s : Db R)
      → (apply_report N c m user o x y e u s).1.inbox ≡ s.inbox
  unfolding apply_report
  inbox-report user o x y e u s =
      ground (arith, inbox-weigh u (reported m (report_row user o x y e) s))

  inbox-abandon :
      (user : Uuid) (is_a : Bool) (target : AbandonTarget) (u : Umvc3Row) (s : Db R)
      → (apply_abandon N c m user is_a target u s).1.inbox ≡ s.inbox
  unfolding apply_abandon
  inbox-abandon user is_a target u s = ground (
    arith,
    inbox-weigh (voted is_a (target_id m user target) u)
        (save m (voted is_a (target_id m user target) u) s),
  )

  -- Applying a command leaves the inbox as it is.
  pub inbox-apply_match_command :
      (u : Umvc3Row) (user : Uuid) (command : RankedCommand) (s : Db R)
      → (apply_match_command N c m u user command s).1.inbox ≡ s.inbox
  unfolding apply_match_command
  inbox-apply_match_command u user (RankedCommand.accept _) s =
      ground (arith, inbox-accept user (user == m.player_a) u s)
  inbox-apply_match_command u user (RankedCommand.decline _) s =
      ground (arith, inbox-decline (user == m.player_a) u s)
  inbox-apply_match_command u user (RankedCommand.trying _ a r l) s =
      ground (arith, inbox-trying user (user == m.player_a) a r l u s)
  inbox-apply_match_command u user (RankedCommand.connect _ a l p) s =
      ground (arith, inbox-connect (user == m.player_a) a l p u s)
  inbox-apply_match_command u user (RankedCommand.ready _ a) s =
      ground (arith, inbox-ready (user == m.player_a) a u s)
  inbox-apply_match_command u user (RankedCommand.report _ o x y e) s =
      ground (arith, inbox-report user o x y e u s)
  inbox-apply_match_command u user (RankedCommand.abandon _ t) s =
      ground (arith, inbox-abandon user (user == m.player_a) t u s)
  inbox-apply_match_command u user (RankedCommand.queue _ _) s = ground arith
  inbox-apply_match_command u user RankedCommand.cancel_queue s = ground arith
  inbox-apply_match_command u user RankedCommand.heartbeat s = ground arith

-- The code of a refusal, other than a failure of the database.
abbrev pub is_refusal : Option Code → Bool
is_refusal none = false
is_refusal (some Code.database_error) = false
is_refusal (some _) = true

module _ {R : Type 0} (N : Numbers R) (c : Config) (m : MatchInfo) where
  refusal-settle : (o : Option Umvc3Verdict) (s : Db R) → is_refusal (settle N m o s).0 ≡ false
  refusal-settle none s = refl
  refusal-settle (some v) s = ground arith

  pub refusal-weigh : (u : Umvc3Row) (s : Db R) → is_refusal (weigh N c m u s).0 ≡ false
  unfolding weigh resolve_evidence
  refusal-weigh u s = ground (
    arith,
    refusal-settle (verdict_of m u (by_reporter (s.reports m.match_token))) s,
    refusal-settle
        (verdict_of m (transition_phase c m Umvc3Phase.awaiting_report u s).0 (
          by_reporter
            ((transition_phase c m Umvc3Phase.awaiting_report u s).1.reports m.match_token)))
        (transition_phase c m Umvc3Phase.awaiting_report u s).1,
  )

  -- A command that is refused with any code but that of a database failure has changed nothing.
  pub apply_match_command_refused :
      (u : Umvc3Row) (user : Uuid) (command : RankedCommand) (s : Db R)
      → is_refusal (apply_match_command N c m u user command s).0 ≡ true
      → (apply_match_command N c m u user command s).1 ≡ s
  unfolding apply_match_command apply_accept apply_decline apply_trying apply_connect apply_ready
      apply_report apply_abandon
  apply_match_command_refused u user (RankedCommand.accept _) s h = ground arith
  apply_match_command_refused u user (RankedCommand.decline _) s h = ground arith
  apply_match_command_refused u user (RankedCommand.trying _ a r l) s h = ground arith
  apply_match_command_refused u user (RankedCommand.connect _ a l p) s h = ground arith
  apply_match_command_refused u user (RankedCommand.ready _ a) s h = ground arith
  apply_match_command_refused u user (RankedCommand.report _ o x y e) s h =
      ground (arith, refusal-weigh u (reported m (report_row user o x y e) s))
  apply_match_command_refused u user (RankedCommand.abandon _ target) s h = ground (
    arith,
    refusal-weigh (voted (user == m.player_a) (target_id m user target) u)
        (save m (voted (user == m.player_a) (target_id m user target) u) s),
  )
  apply_match_command_refused u user (RankedCommand.queue _ _) s h = ground arith
  apply_match_command_refused u user RankedCommand.cancel_queue s h = ground arith
  apply_match_command_refused u user RankedCommand.heartbeat s h = ground arith
