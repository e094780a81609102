-- ===== src/Server/Retry.antt =====
-- An activity that Temporal executes again, because its completion was lost
-- (`resolve_start_forfeit`, lobby-server/src/temporal/activities.rs).
use mathlib.Core.Option
use steam_lobby.Prelude.{
  Bool, true, some, ◌≡◌, refl, arith, ◌∙◌, ap, sym, is_some, Option-cases, inl, inr,
}
use steam_lobby.Core.Types.{PlayerId, Token, MatchStatus, MatchInfo}
use steam_lobby.Core.Error.{LobbyError, ok, err}
use steam_lobby.Core.Callbacks.{default_callbacks}
use steam_lobby.Core.Match
use steam_lobby.Core.Match.{is_participant, resolve_agreed}
use steam_lobby.Core.Match.Resolution.{
  status_of, resolved, with_ratings, resolve_agreed-ok, resolve_agreed-stored,
}
use steam_lobby.Store.Db.{Db}
use steam_lobby.Store.Numbers.{Numbers}
use steam_lobby.Store.Rows.{ResultRow}
use steam_lobby.Store.Matches.{update_match}
use steam_lobby.Workflow.{MatchArgs}
use steam_lobby.Server.State.{AppState}
use steam_lobby.Server.Activities.{resolve_start_forfeit}
use steam_lobby.Server.Frames.{reopened, forfeit_won-Leaves, forfeit_refused-Fails}
use steam_lobby.Server.Lifecycle.{Stands}
use steam_lobby.Server.Outcomes.{is_player, won-Resolves, won-agreed}
use steam_lobby.Server.Endings.{reopened-Stands}

module _ {R : Type 0} (N : Numbers R) (t : Token) (w : PlayerId) where
  placed_pong :
      (d : Db R) {m : MatchInfo}
      → d.matches t ≡ some m
      → m.status ≡ MatchStatus.reporting
      → is_participant m w ≡ true
      → Match.resolve_pong N default_callbacks t w d
        ≡ resolve_agreed N default_callbacks m (some w) d
  unfolding Match.resolve_pong
  placed_pong d found reports plays = ground arith

  -- a match that has its result already
  pong-stored :
      (d : Db R) {m : MatchInfo} {r : ResultRow R}
      → d.matches t ≡ some m
      → m.match_token ≡ t
      → m.status ≡ MatchStatus.reporting
      → is_participant m w ≡ true
      → d.results t ≡ some r
      → Match.resolve_pong N default_callbacks t w d
        ≡ (err (LobbyError.database "match_results_pkey"), with_ratings N m d)
  pong-stored d {m} found key reports plays stored =
      placed_pong d found reports plays
      ∙ resolve_agreed-stored N m d default_callbacks (some w) (ap d.results key ∙ stored)

  again :
      (s : AppState R) {m : MatchInfo} {r : ResultRow R}
      → s.db.matches t ≡ some m
      → m.match_token ≡ t
      → is_participant m w ≡ true
      → s.db.results t ≡ some r
      → let out = resolve_start_forfeit N t (some w) s in
        (out.0 ≡ err (LobbyError.database "match_results_pkey"))
        × (status_of out.1.db t ≡ some MatchStatus.reporting)
  unfolding update_match
  again s {m} found key plays stored =
      let call =
        pong-stored (reopened t s)
          {m = record m { status = MatchStatus.reporting; ended_at = some s.db.now }} (ground arith)
          key refl plays stored in
      let (failed, same) = forfeit_refused-Fails N t s w _ _ call in
      (failed, ap (λ d. status_of d t) same ∙ ground arith)

  again_stored :
      (s : AppState R) {m : MatchInfo}
      → s.db.matches t ≡ some m
      → m.match_token ≡ t
      → is_participant m w ≡ true
      → is_some (s.db.results t) ≡ true
      → let out = resolve_start_forfeit N t (some w) s in
        (out.0 ≡ err (LobbyError.database "match_results_pkey"))
        × (status_of out.1.db t ≡ some MatchStatus.reporting)
  again_stored s found key plays stored = elim (Option-cases (s.db.results t)) [
    | inl none_yet ↦ absurd (ground arith)
    | inr (r, there) ↦ again s found key plays there
  ]

  module _ (d : Db R) (m : MatchInfo) where
    results-resolved :
        m.match_token ≡ t → is_some ((resolved N m d default_callbacks (some w)).results t) ≡ true
    results-resolved key = ground arith

    matches-resolved :
        d.matches t ≡ some m
        → m.match_token ≡ t
        → (resolved N m d default_callbacks (some w)).matches t
          ≡ some (record m { status = MatchStatus.resolved; ended_at = some d.now })
    matches-resolved found key = ground arith

  module _ (p : MatchArgs) (s : AppState R) {accepts connects : Bool × Bool} where
    -- the database after the first time
    first :
        (h : Stands p t s.db MatchStatus.in_progress accepts connects)
        → is_player p w ≡ true
        → let out = resolve_start_forfeit N t (some w) s in
          (out.0 ≡ ok tt)
          × (out.1.db
              ≡ resolved N
                  (reopened-Stands N p t s h).row
                  (reopened t s)
                  default_callbacks
                  (some w))
    first h plays =
        let again_h = reopened-Stands N p t s h in
        let (o, after, call, ended) = won-Resolves N p t (reopened t s) again_h w plays in
        let agreed = won-agreed N p t (reopened t s) again_h w plays in
        let (fine, same) = forfeit_won-Leaves N t s w o after call in
        (
          fine,
          same
              ∙ ap (λ out. out.1) (sym call)
              ∙ ap (λ out. out.1) agreed
              ∙ resolve_agreed-ok N again_h.row (reopened t s) default_callbacks (some w)
                  (ap (λ out. out.0) (sym agreed ∙ call)),
        )

    -- A forfeit of the start window in favour of a player, on a match under the workflow that is
    -- InProgress, leaves the match Resolved; executed again it is a database error and leaves the
    -- match, whose result is stored, Reporting.
    pub resolve_start_forfeit_again :
        Stands p t s.db MatchStatus.in_progress accepts connects
        → is_player p w ≡ true
        → let once = resolve_start_forfeit N t (some w) s in
          let twice = resolve_start_forfeit N t (some w) once.1 in
          (once.0 ≡ ok tt)
          × (status_of once.1.db t ≡ some MatchStatus.resolved)
          × (twice.0 ≡ err (LobbyError.database "match_results_pkey"))
          × (status_of twice.1.db t ≡ some MatchStatus.reporting)
    resolve_start_forfeit_again h plays =
        let (fine, same) = first h plays in
        let stands = reopened-Stands N p t s h in
        let found =
          ap (λ d. d.matches t) same
          ∙ matches-resolved (reopened t s) stands.row stands.found stands.key in
        let (failed, back) =
          again_stored (resolve_start_forfeit N t (some w) s).1 found stands.key
            (ground (arith, stands.player_a, stands.player_b, plays))
            (ap (λ d. is_some (d.results t)) same
              ∙ results-resolved (reopened t s) stands.row stands.key) in
        (fine, ap (λ m. Option.map (λ row. row.status) m) found, failed, back)
