-- ===== src/Server/Frames.antt =====
-- What the activities of a match write to the database, apart from what they send
-- (lobby-server/src/temporal/activities.rs).
use steam_lobby.Prelude.{true, Option, none, some, ◌≡◌, refl, arith}
use steam_lobby.Core.Types.{PlayerId, Token, MatchStatus, MatchEvent, MatchInfo, MatchOutcome}
use steam_lobby.Core.Error.{LobbyError, Result, ok, err}
use steam_lobby.Core.Callbacks.{default_callbacks}
use steam_lobby.Core.Player.{reporting_complete}
use steam_lobby.Core.Match
use steam_lobby.Store.Db.{Db}
use steam_lobby.Store.Numbers.{Numbers}
use steam_lobby.Store.Matches.{mark_accepted, update_match_status, update_match, record_match_event}
use steam_lobby.Server.State.{AppState, ServerMessage, notify_match_players}
use steam_lobby.Server.Activities.{
  verify_match, accept_match, tell_connected, mark_connected, mark_accepts, handle_decline,
  resolve_dispute, finish_match, resolve_start_forfeit,
}

module _ {R : Type 0} where
  -- A call ends well and leaves the database so.
  abbrev pub Leaves : Result (Unit {0}) × AppState R → Db R → Type 0
  Leaves out d = (out.0 ≡ ok tt) × (out.1.db ≡ d)

  abbrev pub Fails : Result (Unit {0}) × AppState R → LobbyError → Db R → Type 0
  Fails out e d = (out.0 ≡ err e) × (out.1.db ≡ d)

  -- the writes of `mark_accepts`
  abbrev pub remarked : Token → MatchInfo → Db R → Db R
  remarked t m d =
      (update_match_status t MatchStatus.in_progress
        (mark_accepted t m.player_b (mark_accepted t m.player_a d).1).1).1

  abbrev pub declined : Token → Option PlayerId → Db R → Db R
  declined t by d =
      (record_match_event t MatchEvent.declined by
        (update_match_status t MatchStatus.disputed d).1).1

  abbrev pub disputed : Token → MatchInfo → Db R → Db R
  disputed t m d =
      (reporting_complete m.player_b
        (reporting_complete m.player_a (update_match_status t MatchStatus.disputed d).1).1).1

module _ {R : Type 0} (t : Token) (s : AppState R) where
  -- the match as `resolve_start_forfeit` takes it to Reporting
  abbrev pub reopened : Db R
  reopened = (update_match t MatchStatus.reporting s.db.now s.db).1

  notify-Leaves : (msg : ServerMessage R) → Leaves (notify_match_players t msg s) s.db
  unfolding notify_match_players
  notify-Leaves msg = ground arith

  pub verify_match-found :
      {m : MatchInfo} → s.db.matches t ≡ some m → verify_match t s ≡ (ok true, s)
  unfolding verify_match
  verify_match-found found = ground arith

  pub accept_match-Leaves :
      (user : PlayerId)
      → let out = Match.accept_match default_callbacks t user s.db in
        out.0 ≡ ok tt → Leaves (accept_match t user s) out.1
  unfolding accept_match
  accept_match-Leaves user fine = (fine, refl)

  tell_connected-Leaves : (user : PlayerId) → Leaves (tell_connected t user s) s.db
  unfolding tell_connected
  tell_connected-Leaves user = ground arith

  pub mark_accepts-Leaves :
      {m : MatchInfo} → s.db.matches t ≡ some m → Leaves (mark_accepts t s) (remarked t m s.db)
  unfolding mark_accepts mark_accepted update_match_status notify_match_players
  mark_accepts-Leaves found = ground arith

  pub handle_decline-Leaves :
      {m : MatchInfo} (by : Option PlayerId)
      → s.db.matches t ≡ some m
      → m.status ≡ MatchStatus.pending_accept
      → Leaves (handle_decline t by s) (declined t by s.db)
  unfolding handle_decline
  handle_decline-Leaves by found pending = ground arith

  pub resolve_dispute-Leaves :
      {m : MatchInfo}
      → s.db.matches t ≡ some m
      → m.status ≡ MatchStatus.reporting
      → Leaves (resolve_dispute t s) (disputed t m s.db)
  unfolding resolve_dispute
  resolve_dispute-Leaves found reports = ground arith

module _ {R : Type 0} (t : Token) (s : AppState R) where
  connected-Leaves :
      (user : PlayerId) (r : Result (Unit {0})) (d : Db R)
      → Match.mark_connected default_callbacks t user s.db ≡ (r, d)
      → r ≡ ok tt
      → Leaves (mark_connected t user s) d
  unfolding mark_connected
  connected-Leaves user r d call fine =
      rw (call, fine) (tell_connected-Leaves t (record s { db = d }) user)

  pub mark_connected-Leaves :
      (user : PlayerId)
      → let out = Match.mark_connected default_callbacks t user s.db in
        out.0 ≡ ok tt → Leaves (mark_connected t user s) out.1
  mark_connected-Leaves user fine = connected-Leaves user _ _ refl fine

module _ {R : Type 0} (N : Numbers R) (t : Token) (s : AppState R) where
  pub finished-Leaves :
      {m : MatchInfo} (w : PlayerId) (o : MatchOutcome R) (d : Db R)
      → s.db.matches t ≡ some m
      → Match.resolve_pong N default_callbacks t w s.db ≡ (ok o, d)
      → Leaves (finish_match N t (some w) s) d
  unfolding finish_match notify_match_players
  finished-Leaves w o d found call = ground arith

  pub refused-Fails :
      {m : MatchInfo} (w : PlayerId) (e : LobbyError) (d : Db R)
      → s.db.matches t ≡ some m
      → Match.resolve_pong N default_callbacks t w s.db ≡ (err e, d)
      → Fails (finish_match N t (some w) s) e d
  unfolding finish_match
  refused-Fails w e d found call = ground arith

  pub finish_match-none : finish_match N t none s ≡ (err (LobbyError.invalid_report t), s)
  unfolding finish_match
  finish_match-none = refl

  pub forfeit_won-Leaves :
      (w : PlayerId) (o : MatchOutcome R) (d : Db R)
      → Match.resolve_pong N default_callbacks t w (reopened t s) ≡ (ok o, d)
      → Leaves (resolve_start_forfeit N t (some w) s) d
  unfolding resolve_start_forfeit notify_match_players
  forfeit_won-Leaves w o d call = ground arith

  pub forfeit_refused-Fails :
      (w : PlayerId) (e : LobbyError) (d : Db R)
      → Match.resolve_pong N default_callbacks t w (reopened t s) ≡ (err e, d)
      → Fails (resolve_start_forfeit N t (some w) s) e d
  unfolding resolve_start_forfeit
  forfeit_refused-Fails w e d call = ground arith

  pub forfeit_lost-Leaves :
      (o : MatchOutcome R) (d : Db R)
      → Match.resolve_forfeit N default_callbacks t (reopened t s) ≡ (ok o, d)
      → Leaves (resolve_start_forfeit N t none s) d
  unfolding resolve_start_forfeit notify_match_players
  forfeit_lost-Leaves o d call = ground arith
