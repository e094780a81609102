-- ===== src/Server/Outcomes.antt =====
-- How an ending of the match workflow leaves the match (lobby-server/src/temporal/activities.rs).
use steam_lobby.Prelude.{refl, Bool, true, false, Option, none, some, ◌==◌, ◌≡◌, arith, ◌||◌}
use steam_lobby.Core.Types.{MatchOutcome, PlayerId, Token, MatchStatus, MatchInfo}
use steam_lobby.Core.Error.{LobbyError, Result, ok, err}
use steam_lobby.Core.Callbacks.{default_callbacks}
use steam_lobby.Core.Player.{reporting_complete}
use steam_lobby.Core.Expiry.Overdue.{is_ok}
use steam_lobby.Core.Match
use steam_lobby.Core.Match.{resolve_agreed, forfeit_both}
use steam_lobby.Core.Match.Resolution.{status_of, status-resolve_agreed, status-forfeit_both}
use steam_lobby.Store.Db.{Db}
use steam_lobby.Store.Numbers.{Numbers}
use steam_lobby.Store.Matches.{update_match_status, record_match_event}
use steam_lobby.Workflow.{MatchArgs}
use steam_lobby.Server.Frames.{declined, disputed}
use steam_lobby.Server.Lifecycle.{Stands}

abbrev pub is_player : MatchArgs → PlayerId → Bool
is_player p w = w == p.player_a || w == p.player_b

module _ {R : Type 0} (p : MatchArgs) (t : Token) (d : Db R) where
  pub declined-status :
      (by : Option PlayerId) {accepts connects : Bool × Bool}
      → (h : Stands p t d MatchStatus.pending_accept accepts connects)
      → status_of (declined t by d) t ≡ some MatchStatus.disputed
  unfolding update_match_status record_match_event
  declined-status by h = ground (arith, h.found)

  pub disputed-status :
      {accepts connects : Bool × Bool}
      → (h : Stands p t d MatchStatus.reporting accepts connects)
      → status_of (disputed t h.row d) t ≡ some MatchStatus.disputed
  unfolding update_match_status reporting_complete
  disputed-status h = ground (arith, h.found)

module _ {R : Type 0} (N : Numbers R) (m : MatchInfo) (d : Db R) where
  pub agreed-is_ok :
      (w : Option PlayerId)
      → d.results m.match_token ≡ none
      → is_ok (resolve_agreed N default_callbacks m w d).0 ≡ true
  unfolding resolve_agreed
  agreed-is_ok w unrated = ground arith

  pub forfeited-is_ok :
      d.results m.match_token ≡ none → is_ok (forfeit_both N default_callbacks m d).0 ≡ true
  unfolding forfeit_both
  forfeited-is_ok unrated = ground arith

module _ {R : Type 0} (N : Numbers R) (p : MatchArgs) (t : Token) (d : Db R)
    {accepts connects : Bool × Bool} (h : Stands p t d MatchStatus.reporting accepts connects) where
  pub won-agreed :
      (w : PlayerId)
      → is_player p w ≡ true
      → Match.resolve_pong N default_callbacks t w d
        ≡ resolve_agreed N default_callbacks h.row (some w) d
  unfolding Match.resolve_pong
  won-agreed w plays = ground (arith, h.found)

  pub stranger-refused :
      (w : PlayerId)
      → is_player p w ≡ false
      → Match.resolve_pong N default_callbacks t w d ≡ (err (LobbyError.invalid_report t), d)
  unfolding Match.resolve_pong
  stranger-refused w other = ground (arith, h.found)

  pub lost-both :
      Match.resolve_forfeit N default_callbacks t d ≡ forfeit_both N default_callbacks h.row d
  unfolding Match.resolve_forfeit
  lost-both = ground (arith, h.found)

  pub won-status :
      (w : Option PlayerId)
      → status_of (resolve_agreed N default_callbacks h.row w d).1 t ≡ some MatchStatus.resolved
  won-status w = ground (arith, status-resolve_agreed N h.row d default_callbacks w t, h.found)

  pub lost-status :
      status_of (forfeit_both N default_callbacks h.row d).1 t ≡ some MatchStatus.resolved
  lost-status = ground (arith, status-forfeit_both N h.row d default_callbacks t, h.found)

  -- A call that ends well, and leaves the match Resolved.
  abbrev pub Resolves : Result (MatchOutcome R) × Db R → Type 0
  Resolves out =
      (o : MatchOutcome R) × (after : Db R) × (out ≡ (ok o, after))
      × (status_of after t ≡ some MatchStatus.resolved)

  resolves :
      (out : Result (MatchOutcome R) × Db R)
      → is_ok out.0 ≡ true
      → status_of out.1 t ≡ some MatchStatus.resolved
      → Resolves out
  resolves (ok o, after) fine ended = (o, after, refl, ended)
  resolves (err e, after) fine ended = absurd (ground arith)

  pub won-Resolves :
      (w : PlayerId)
      → is_player p w ≡ true
      → Resolves (Match.resolve_pong N default_callbacks t w d)
  won-Resolves w plays =
      rw (won-agreed w plays)
        (resolves _ (agreed-is_ok N h.row d (some w) (ground (arith, h.key))) (won-status (some w)))

  pub lost-Resolves : Resolves (Match.resolve_forfeit N default_callbacks t d)
  lost-Resolves =
      rw lost-both (resolves _ (forfeited-is_ok N h.row d (ground (arith, h.key))) lost-status)
