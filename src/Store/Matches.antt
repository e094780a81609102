-- ===== src/Store/Matches.antt =====
-- lobby-server/src/db/matches.rs: `MatchStore` for `PostgresStore`.
use steam_lobby.Prelude.{
  String, Option, none, some, Bool, true, false, ◌&&◌, ◌||◌, ◌==◌, leb, any, is_some, if◌then◌else◌,
  List, [], ◌∷◌, ◌++◌, put, modify,
}
use steam_lobby.Core.Types.{
  PlayerId, Token, DateTime, MatchStatus, MatchEvent, MatchInfo, MatchReport, OpenSkillRating,
  match_status_eq,
}
use steam_lobby.Core.Error.{LobbyError}
use steam_lobby.Core.Action.{
  Action, modifies, gets, ok_or, modifies_unless, transaction, ◌>>=◌, ◌>>◌,
}
use steam_lobby.Store.Rows.{ReportRow, EventType, empty}
use steam_lobby.Ranked.Types.{StoredOutcome}
use steam_lobby.Store.Db.{Db}
use steam_lobby.Store.Players.{update_rating_row}

abbrev pub update_row : {R : Type 0} → Token → (MatchInfo → MatchInfo) → Action (Db R) (Unit {0})
update_row t f = modifies λ s. record s { matches = modify t f s.matches }

abbrev event_type : MatchEvent → EventType
event_type MatchEvent.paired = EventType.paired
event_type MatchEvent.accepted = EventType.accepted
event_type MatchEvent.declined = EventType.declined

abbrev pub of_report : MatchReport → ReportRow
of_report r = record {
  reporting_player = r.reporting_player;
  winner = r.winner;
  demo_hash = r.demo_hash;
  outcome = none;
  score = none;
  checksum = none;
  end_frame = none;
}

abbrev pub has_report : PlayerId → List ReportRow → Bool
has_report p = any λ r. r.reporting_player == p

-- INSERT INTO match_reports … ON CONFLICT (match_token, reporting_player) DO NOTHING
abbrev pub insert_report : ReportRow → List ReportRow → List ReportRow
insert_report r rows = if has_report r.reporting_player rows then rows else rows ++ r ∷ []

abbrev pub with_status : MatchStatus → (Token → Option MatchInfo) → List Token → List MatchInfo
with_status status rows [] = []
with_status status rows (t ∷ ts) =
    let rest = with_status status rows ts in
    elim (rows t) [
      | none ↦ rest
      | some m ↦ if match_status_eq m.status status then m ∷ rest else rest
    ]

-- one row of the query of `recent_match_between`
abbrev pub is_rematch : PlayerId → PlayerId → DateTime → MatchInfo → Bool
is_rematch a b since m =
    ((m.player_a == a && m.player_b == b) || (m.player_a == b && m.player_b == a))
    && match_status_eq m.status MatchStatus.resolved
    && elim m.ended_at [ none ↦ false | some ended ↦ leb since ended ]

-- UPDATE matches SET accepted_a = TRUE, accepted_at = NOW() WHERE … AND player_a = $2
abbrev accept_as_a : DateTime → PlayerId → MatchInfo → MatchInfo
accept_as_a now user m =
    if m.player_a == user then record m { accepted_a = true; accepted_at = some now } else m

abbrev accept_as_b : DateTime → PlayerId → MatchInfo → MatchInfo
accept_as_b now user m =
    if m.player_b == user then record m { accepted_b = true; accepted_at = some now } else m

abbrev pub accepted_by : DateTime → PlayerId → MatchInfo → MatchInfo
accepted_by now user m = accept_as_b now user (accept_as_a now user m)

-- UPDATE matches SET connected_a = TRUE, started_at = NOW() WHERE … AND player_a = $2
abbrev start_as_a : DateTime → PlayerId → MatchInfo → MatchInfo
start_as_a now user m =
    if m.player_a == user then record m { connected_a = true; started_at = some now } else m

abbrev start_as_b : DateTime → PlayerId → MatchInfo → MatchInfo
start_as_b now user m =
    if m.player_b == user then record m { connected_b = true; started_at = some now } else m

abbrev pub started_by : DateTime → PlayerId → MatchInfo → MatchInfo
started_by now user m = start_as_b now user (start_as_a now user m)

module _ {R : Type 0} where
  unfoldable pub create_match : MatchInfo → Action (Db R) (Unit {0})
  create_match m = do
    taken ← gets (λ s. is_some (s.matches m.match_token))
    modifies_unless taken (LobbyError.database "matches_pkey") (λ s. record s {
      tokens = s.tokens ++ m.match_token ∷ [];
      matches =
          put m.match_token
            (record m {
              status = MatchStatus.pending_accept;
              created_at = s.now;
              accepted_at = none;
              started_at = none;
              ended_at = none;
              server_address = none;
              join_token = none;
              accepted_a = false;
              accepted_b = false;
              connected_a = false;
              connected_b = false;
            })
            s.matches;
    })

  unfoldable pub get_match : Token → Action (Db R) (Option MatchInfo)
  get_match t = gets λ s. s.matches t

  unfoldable pub update_match_status : Token → MatchStatus → Action (Db R) (Unit {0})
  update_match_status t status = update_row t λ m. record m { status = status }

  unfoldable pub submit_report : MatchReport → Action (Db R) (Unit {0})
  submit_report r = modifies λ s. record s {
    reports =
        λ t. if t == r.match_token then insert_report (of_report r) (s.reports t) else s.reports t;
  }

  unfoldable pub get_reports : Token → Action (Db R) (List ReportRow)
  get_reports t = gets λ s. s.reports t

  unfoldable pub get_matches_by_status : MatchStatus → Action (Db R) (List MatchInfo)
  get_matches_by_status status = gets λ s. with_status status s.matches s.tokens

  unfoldable pub update_match : Token → MatchStatus → DateTime → Action (Db R) (Unit {0})
  update_match t status ended_at =
      update_row t λ m. record m { status = status; ended_at = some ended_at }

  unfoldable pub mark_accepted : Token → PlayerId → Action (Db R) Bool
  mark_accepted t user = do
    now ← gets (λ s. s.now)
    update_row t (accept_as_a now user)
    update_row t (accept_as_b now user)
    row ← gets (λ s. s.matches t)
    m ← ok_or row (LobbyError.database "no rows returned")
    gets (λ _. m.accepted_a && m.accepted_b)

  unfoldable pub mark_started : Token → PlayerId → Action (Db R) Bool
  mark_started t user = do
    now ← gets (λ s. s.now)
    update_row t (start_as_a now user)
    update_row t (start_as_b now user)
    row ← gets (λ s. s.matches t)
    m ← ok_or row (LobbyError.database "no rows returned")
    gets (λ _. m.connected_a && m.connected_b)

  unfoldable pub mark_server_ready : Token → String → Option String → Action (Db R) (Unit {0})
  mark_server_ready t address join_token s =
      update_row t
        (λ m. record m {
          status = MatchStatus.playing;
          server_address = some address;
          join_token = join_token;
          started_at = some s.now;
        })
        s

  unfoldable pub record_match_event :
      Token → MatchEvent → Option PlayerId → Action (Db R) (Unit {0})
  record_match_event t event actor = modifies λ s. record s {
    events =
        s.events
        ++ record {
          match_token = t;
          event_type = event_type event;
          actor = actor;
          recipient = none;
          payload = empty;
        }
          ∷ [];
  }

  -- INSERT INTO match_results: the token is the primary key
  unfoldable pub write_match_result :
      Token → StoredOutcome → Option R → Option R → Action (Db R) (Unit {0})
  write_match_result t outcome mu_change_a mu_change_b = do
    taken ← gets (λ s. is_some (s.results t))
    modifies_unless taken (LobbyError.database "match_results_pkey") (λ s. record s {
      results =
          put t (record { outcome = outcome; mu_change_a = mu_change_a; mu_change_b = mu_change_b })
            s.results;
    })

  unfoldable pub recent_match_between : PlayerId → PlayerId → DateTime → Action (Db R) Bool
  recent_match_between a b since =
      gets λ s. any (is_rematch a b since) (with_status MatchStatus.resolved s.matches s.tokens)

  unfoldable pub resolve_match :
      Token
      → String
      → PlayerId
      → PlayerId
      → StoredOutcome
      → Option R
      → Option R
      → OpenSkillRating R
      → OpenSkillRating R
      → Action (Db R) (Unit {0})
  unfolding write_match_result
  resolve_match t mode a b outcome mu_change_a mu_change_b rating_a rating_b = transaction do
    now ← gets (λ s. s.now)
    modifies λ s. record s {
      ratings =
          update_rating_row a mode
            (λ _. record { mu = rating_a.mu; sigma = rating_a.sigma; last_updated = now })
            s.ratings;
    }
    modifies λ s. record s {
      ratings =
          update_rating_row b mode
            (λ _. record { mu = rating_b.mu; sigma = rating_b.sigma; last_updated = now })
            s.ratings;
    }
    write_match_result t outcome mu_change_a mu_change_b
    update_row t λ m. record m { status = MatchStatus.resolved; ended_at = some now }
