-- ===== src/Ranked/Apply/Admitted.antt =====
-- A command that admission lets through is not refused when it is applied (`validate_match_admission` and
-- `apply_match_command`, lobby-server/src/commands.rs).
use steam_lobby.Prelude.{Bool, true, ◌==◌, not, is_none}
use steam_lobby.Core.Types.{Uuid, MatchInfo}
use steam_lobby.Store.Db.{Db}
use steam_lobby.Store.Numbers.{Numbers}
use steam_lobby.Store.Rows.{Umvc3Row}
use steam_lobby.Store.Matches.{has_report}
use steam_lobby.Ranked.Types.{RankedCommand}
use steam_lobby.Ranked.Config.{Config}
use steam_lobby.Ranked.Apply.{vote_of}

-- What the player of a command has not said before: a report for a report, a vote for a vote.
abbrev pub is_new : {R : Type 0} → MatchInfo → Umvc3Row → Uuid → RankedCommand → Db R → Bool
is_new m u user (RankedCommand.report _ _ _ _ _) s = not (has_report user (s.reports m.match_token))
is_new m u user (RankedCommand.abandon _ _) s = is_none (vote_of (user == m.player_a) u)
is_new m u user _ s = true
