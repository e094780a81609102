-- ===== src/Server/Webhook.antt =====
-- `game_result` of lobby-server/src/routes.rs: the report of a game server, under the match's secret.
use steam_lobby.Prelude.{
  true, false, Option, none, some, option_eq, ◌≡◌, ◌∙◌, refl, sym, ap, arith, if◌then◌else◌,
}
use steam_lobby.Core.Types.{
  Uuid, PlayerId, Token, MatchStatus, MatchInfo, MatchOutcome, match_status_eq,
}
use steam_lobby.Core.Error.{Result, ok, err}
use steam_lobby.Core.Callbacks.{default_callbacks}
use steam_lobby.Core.Match.{resolve_agreed, resolve_from_gameserver, is_stranger}
use steam_lobby.Core.Match.Resolution.{resolved, resolve_agreed-ok}
use steam_lobby.Store.Db.{Db}
use steam_lobby.Store.Numbers.{Numbers}
use steam_lobby.Server.State.{AppState, match_result, notify_match_players}

pub data StatusCode : Type 0 where
  status_ok not_found unauthorized conflict : StatusCode

module _ {R : Type 0} (N : Numbers R) where
  abbrev pub answer : Token → AppState R → Result (MatchOutcome R) × Db R → StatusCode × AppState R
  answer t s (ok outcome, d) =
      (status_ok, (notify_match_players t (match_result t outcome) (record s { db = d })).1)
  answer t s (err e, d) = (conflict, record s { db = d })

  abbrev pub accept_result :
      Token → Uuid → Option PlayerId → AppState R → Option MatchInfo → StatusCode × AppState R
  accept_result t secret winner s none = (not_found, s)
  accept_result t secret winner s (some m) =
      let resolved = resolve_from_gameserver N default_callbacks t winner s.db in
      if option_eq m.result_secret (some secret) then answer t s resolved else (unauthorized, s)

  unfoldable pub game_result : Token → Uuid → Option PlayerId → AppState R → StatusCode × AppState R
  unfolding notify_match_players resolve_from_gameserver
  game_result t secret winner s = accept_result t secret winner s (s.db.matches t)

module _ {R : Type 0} (N : Numbers R) (t : Token) where
  -- a match that is not being played is refused
  refused :
      (secret : Uuid) (winner : Option PlayerId) (s : AppState R) {m : MatchInfo}
      → s.db.matches t ≡ some m
      → match_status_eq m.status MatchStatus.playing ≡ false
      → game_result N t secret winner s
        ≡ ((if option_eq m.result_secret (some secret) then conflict else unauthorized), s)
  unfolding game_result resolve_from_gameserver
  refused secret winner s found other = ground arith

  notify-db :
      (s : AppState R) (o : MatchOutcome R)
      → (notify_match_players t (match_result t o) s).1.db ≡ s.db
  unfolding notify_match_players
  notify-db s o = ground arith

  accepts :
      (secret : Uuid) (winner : Option PlayerId) (s : AppState R) {m : MatchInfo}
      → s.db.matches t ≡ some m
      → option_eq m.result_secret (some secret) ≡ true
      → match_status_eq m.status MatchStatus.playing ≡ true
      → is_stranger m winner ≡ false
      → game_result N t secret winner s
        ≡ answer N t s (resolve_agreed N default_callbacks m winner s.db)
  unfolding game_result resolve_from_gameserver
  accepts secret winner s found known playing plays = ground arith

  rejects :
      (secret : Uuid) (winner : Option PlayerId) (s : AppState R) {m : MatchInfo}
      → s.db.matches t ≡ some m
      → (game_result N t secret winner s).0 ≡ status_ok
      → (option_eq m.result_secret (some secret) ≡ true)
        × (match_status_eq m.status MatchStatus.playing ≡ true)
        × (is_stranger m winner ≡ false)
  unfolding game_result resolve_from_gameserver
  rejects secret winner s found fine = ground arith

  -- a match that is resolved with success
  answers :
      (winner : Option PlayerId) (s : AppState R) (m : MatchInfo) (r : Result (MatchOutcome R))
      (d : Db R)
      → resolve_agreed N default_callbacks m winner s.db ≡ (r, d)
      → (answer N t s (r, d)).0 ≡ status_ok
      → (answer N t s (r, d)).1.db ≡ resolved N m s.db default_callbacks winner
  answers winner s m (ok o) d call fine =
      notify-db (record s { db = d }) o
      ∙ sym (ap (λ out. out.1) call)
      ∙ resolve_agreed-ok N m s.db default_callbacks winner (ap (λ out. out.0) call)
  answers winner s m (err e) d call fine = absurd (ground arith)

  settles :
      (secret : Uuid) (winner : Option PlayerId) (s : AppState R) {m : MatchInfo}
      → s.db.matches t ≡ some m
      → (game_result N t secret winner s).0 ≡ status_ok
      → (game_result N t secret winner s).1.db ≡ resolved N m s.db default_callbacks winner
  settles secret winner s {m} found fine =
      let (known, playing, plays) = rejects secret winner s found fine in
      let same = accepts secret winner s found known playing plays in
      ap (λ out. out.1.db) same ∙ answers winner s m _ _ refl (ap (λ out. out.0) (sym same) ∙ fine)

  matches-resolved :
      (winner : Option PlayerId) (d : Db R) {m : MatchInfo}
      → d.matches t ≡ some m
      → m.match_token ≡ t
      → (resolved N m d default_callbacks winner).matches t
        ≡ some (record m { status = MatchStatus.resolved; ended_at = some d.now })
  matches-resolved winner d found key = ground arith

  -- A game server whose report of a match, stored under its token, is answered with OK has named
  -- the match's secret, while the match was Playing, and no one but a player as the winner; and
  -- every later report of the match, whatever it says, is answered with Conflict, or Unauthorized
  -- without the secret, and changes nothing.
  pub game_result_once :
      (secret later : Uuid) (winner other : Option PlayerId) (s : AppState R) {m : MatchInfo}
      → s.db.matches t ≡ some m
      → m.match_token ≡ t
      → (game_result N t secret winner s).0 ≡ status_ok
      → let after = (game_result N t secret winner s).1 in
        (option_eq m.result_secret (some secret) ≡ true)
        × (match_status_eq m.status MatchStatus.playing ≡ true)
        × (is_stranger m winner ≡ false)
        × (game_result N t later other after
            ≡ ((if option_eq m.result_secret (some later) then conflict else unauthorized), after))
  game_result_once secret later winner other s {m} found key fine =
      let (known, playing, plays) = rejects secret winner s found fine in
      let there =
        ap (λ d. d.matches t) (settles secret winner s found fine)
        ∙ matches-resolved winner s.db found key in
      (known, playing, plays, refused later other (game_result N t secret winner s).1 there refl)
