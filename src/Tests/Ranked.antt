-- ===== src/Tests/Ranked.antt =====
-- The theorems on the ranked match at concrete inputs.
use steam_lobby.Prelude.{
  List, ℕ, ◌+◌, String, none, some, true, false, ◌≡◌, refl, arith, [], ◌∷◌, is_some,
}
use steam_lobby.Core.Types.{PlayerId, PlayerState, MatchStatus, OpenSkillRating}
use steam_lobby.Core.Error.{ok, err}
use steam_lobby.Store.Db.{Db}
use steam_lobby.Store.Rows.{EventType, Payload, InboxRow}
use steam_lobby.Ranked.Types.{
  Umvc3Phase, Umvc3Verdict, RequeueDecision, RankedCommand, RelativeOutcome, TerminalReason,
  CommandStatus, match_token,
}
use steam_lobby.Ranked.Finalize.{finalize_umvc3_in_tx, write_verdict, ended, made_terminal}
use steam_lobby.Ranked.Finalize.Once.{as_stored, finalize_once}
use steam_lobby.Ranked.Finalize.Writes.{stands, verdict_reason, write_verdict-frees_players}
use steam_lobby.Ranked.Evidence.{no_requeue, verdict_of}
use steam_lobby.Ranked.Evidence.Verdicts.{both_have_spoken, verdict_of_both}
use steam_lobby.Ranked.Apply.{apply_match_command, apply_accept}
use steam_lobby.Ranked.Apply.Phases.{moves_on, apply_match_command-moves}
use steam_lobby.Ranked.Events.{emit_recipient_events, numbered}
use steam_lobby.Ranked.Events.Numbering.{IsGapless, emit_recipient_events-IsGapless}
use steam_lobby.Ranked.Feed.Pages.{numbers, read_pages, read_pages-numbers}
use steam_lobby.Ranked.Apply.Refusals.{apply_match_command_refused}
use steam_lobby.Ranked.Admission.{
  dispatch, admit_match_command, replay_receipt, validate_match_admission,
}
use steam_lobby.Ranked.Admission.Once.{seen, dispatch_once}
use steam_lobby.Ranked.Drain.{drain_loop, drain_match, expire, expire_phase, first_by}
use steam_lobby.Ranked.Drain.Progress.{Done, drain_loop-ends}
use steam_lobby.Ranked.Drain.Places.{waits_since}
use steam_lobby.Ranked.Drain.Timers.{expire_phase_once}
use steam_lobby.Ranked.Pending.{drain_pending_loop, drain_pending, first_owner, match_owner}
use steam_lobby.Ranked.Pending.Stuck.{failed, reports_stuck}
use steam_lobby.Ranked.Pending.Progress as Pending
use steam_lobby.Ranked.Pending.Progress.{drain_pending_loop-ends}
use steam_lobby.Tests.{naturals, config, duel, extension, claim, actor, waiting, lobby}

abbrev playing : Db ℕ
playing = lobby PlayerState.in_match MatchStatus.playing Umvc3Phase.playing []

abbrev unaccepted : Db ℕ
unaccepted = lobby PlayerState.queueing MatchStatus.pending_accept Umvc3Phase.awaiting_accepted []

abbrev won : Umvc3Verdict
won = Umvc3Verdict.win 1

abbrev again : RequeueDecision
again = record { player_a = true; player_b = false }

finalize_once_example :
    let first = finalize_umvc3_in_tx naturals 7 won no_requeue playing in
    let r =
      (write_verdict naturals
        (duel MatchStatus.playing)
        (extension Umvc3Phase.playing)
        won
        no_requeue
        playing).0 in
    (first.0 ≡ ok r)
    × (r.newly_finalized ≡ true)
    × (first.1.matches 7 ≡ some (ended 100 (duel MatchStatus.playing)))
    × (first.1.umvc3 7 ≡ some (made_terminal (verdict_reason won) (extension Umvc3Phase.playing)))
    × (finalize_umvc3_in_tx naturals 7 Umvc3Verdict.draw again first.1
        ≡ (ok (as_stored r), first.1))
finalize_once_example =
    finalize_once naturals (duel MatchStatus.playing) (extension Umvc3Phase.playing) won no_requeue
      playing Umvc3Verdict.draw again refl refl refl refl refl

write_verdict-frees_players_example :
    let after =
      (write_verdict naturals
        (duel MatchStatus.playing)
        (extension Umvc3Phase.playing)
        won
        again
        playing).1 in
    (stands after 1 ≡ some (PlayerState.queueing, none))
    × (stands after 2 ≡ some (PlayerState.in_menus, none))
write_verdict-frees_players_example =
    write_verdict-frees_players naturals (duel MatchStatus.playing) (extension Umvc3Phase.playing)
      won again playing refl refl refl

apply_match_command-moves_example :
    moves_on (extension Umvc3Phase.awaiting_accepted) (
      (apply_match_command naturals config
          (duel MatchStatus.pending_accept)
          (extension Umvc3Phase.awaiting_accepted)
          2
          (RankedCommand.accept 7)
          unaccepted).1.umvc3
        7)
    ≡ true
apply_match_command-moves_example =
    apply_match_command-moves naturals config (duel MatchStatus.pending_accept)
      (extension Umvc3Phase.awaiting_accepted) 2 (RankedCommand.accept 7) unaccepted refl

apply_match_command_refused_example :
    (apply_match_command naturals config
      (duel MatchStatus.playing)
      (extension Umvc3Phase.playing)
      2
      (RankedCommand.accept 7)
      playing).1
    ≡ playing
unfolding apply_match_command apply_accept
apply_match_command_refused_example =
    apply_match_command_refused naturals config (duel MatchStatus.playing)
      (extension Umvc3Phase.playing) 2 (RankedCommand.accept 7) playing refl

verdict_of_both_example :
    is_some (
      verdict_of
        (duel MatchStatus.playing)
        (extension Umvc3Phase.playing)
        (claim 1 RelativeOutcome.win ∷ []))
    ≡ both_have_spoken
        (duel MatchStatus.playing)
        (extension Umvc3Phase.playing)
        (claim 1 RelativeOutcome.win ∷ [])
verdict_of_both_example =
    verdict_of_both (duel MatchStatus.playing) (extension Umvc3Phase.playing)
      (claim 1 RelativeOutcome.win ∷ [])

abbrev in_time : Db ℕ
in_time = record unaccepted { now = 10 }

-- a hash that tells the commands of the tests apart
abbrev digest : RankedCommand → ℕ
digest (RankedCommand.accept _) = 1
digest _ = 2

dispatch_once_example :
    dispatch digest config actor 72
      (RankedCommand.accept 7)
      (dispatch digest config actor 72 (RankedCommand.accept 7) in_time).1
    ≡ (
      ok (
          seen (record {
            receipt = 1000;
            status = CommandStatus.pending;
            error_code = none;
            newly_admitted = true;
          })),
      (dispatch digest config actor 72 (RankedCommand.accept 7) in_time).1,
    )
unfolding dispatch admit_match_command replay_receipt validate_match_admission match_token
dispatch_once_example = dispatch_once digest config actor 72 (RankedCommand.accept 7) in_time refl

abbrev used : Db ℕ
used = record in_time { inbox = waiting (RankedCommand.accept 7) ∷ [] }

drain_loop-ends_example :
    Done naturals config 7 (drain_loop naturals config 2 7 used)
    × (drain_loop naturals config (2 + 5) 7 used ≡ drain_loop naturals config 2 7 used)
drain_loop-ends_example = drain_loop-ends naturals config 7 2 5 used (omega arith)

drain_pending_loop-ends_example :
    Pending.Done naturals config (drain_pending_loop naturals config 2 0 used)
    × (drain_pending_loop naturals config (2 + 5) 0 used
        ≡ drain_pending_loop naturals config 2 0 used)
drain_pending_loop-ends_example = drain_pending_loop-ends naturals config 2 5 0 used (omega arith)

expire_phase_once_example :
    let after = (expire_phase naturals config 7 3 unaccepted).1 in
    (after.umvc3 7
      ≡ some (made_terminal TerminalReason.accept_timeout (extension Umvc3Phase.awaiting_accepted)))
    × (after.results ≡ unaccepted.results)
    × ((id : PlayerId) (mode : String) (r : OpenSkillRating ℕ)
        → unaccepted.ratings id mode ≡ some r
        → after.ratings id mode ≡ some r)
    × ((stands after 1 ≡ some (PlayerState.queueing, none))
        × (waits_since 1 "umvc3_1v1" after.queue ≡ some 0))
    × ((stands after 2 ≡ some (PlayerState.in_menus, none))
        × (waits_since 2 "umvc3_1v1" after.queue ≡ none))
    × (expire_phase naturals config 7 9 after ≡ (ok tt, after))
expire_phase_once_example =
    expire_phase_once naturals config (duel MatchStatus.pending_accept)
      (extension Umvc3Phase.awaiting_accepted) unaccepted 3 9 refl refl refl refl refl refl refl

emit_recipient_events-IsGapless_example :
    IsGapless
      (emit_recipient_events 7 none
        ((2, EventType.resolved, Payload.empty) ∷ (1, EventType.resolved, Payload.empty) ∷ [])
        playing).1
emit_recipient_events-IsGapless_example =
    emit_recipient_events-IsGapless 7 none
      ((2, EventType.resolved, Payload.empty) ∷ (1, EventType.resolved, Payload.empty) ∷ []) playing
      (λ id. (0, refl, refl))

-- two events for player 2 and one for player 1
abbrev three_events : Db ℕ
three_events =
    (emit_recipient_events 7 none
      ((2, EventType.resolved, Payload.empty)
        ∷ (1, EventType.resolved, Payload.empty)
        ∷ (2, EventType.accepted, Payload.empty)
        ∷ [])
      playing).1

read_pages-numbers_example : numbers (read_pages 2 2 0 three_events) ≡ 1 ∷ 2 ∷ []
unfolding numbered read_pages
read_pages-numbers_example = read_pages-numbers 2 2 0 three_events (
    emit_recipient_events-IsGapless 7 none
      ((2, EventType.resolved, Payload.empty)
        ∷ (1, EventType.resolved, Payload.empty)
        ∷ (2, EventType.accepted, Payload.empty)
        ∷ [])
      playing (λ id. (0, refl, refl)))

-- a report of player 2 whose frame does not fit into an i64
abbrev far_report : InboxRow
far_report =
    waiting (RankedCommand.report 7 RelativeOutcome.win none none (some 9_223_372_036_854_775_808))

abbrev poisoned : Db ℕ
poisoned = record playing { inbox = far_report ∷ [] }

reports_stuck_example :
    (drain_match naturals config 7 poisoned ≡ (err failed, poisoned))
    × ((version : ℕ) → expire naturals config 7 version poisoned ≡ (err failed, poisoned))
    × (first_owner (match_owner poisoned) poisoned.inbox ≡ some 7
        → drain_pending naturals config poisoned ≡ (err failed, poisoned))
unfolding first_by
reports_stuck_example =
    reports_stuck naturals config 7 poisoned (duel MatchStatus.playing)
      (extension Umvc3Phase.playing) far_report 7 RelativeOutcome.win none none
      9_223_372_036_854_775_808 refl refl refl refl refl refl (omega arith)

abbrev two_waiting : List InboxRow
two_waiting =
    record (waiting (RankedCommand.accept 7)) { match_sequence = some 4; command_id = 73 }
    ∷ waiting (RankedCommand.accept 7)
    ∷ []
