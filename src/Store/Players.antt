-- ===== src/Store/Players.antt =====
-- lobby-server/src/db/players.rs: `PlayerStore` for `PostgresStore`.
use steam_lobby.Prelude.{
  ℕ, ◌+◌, String, Option, none, some, ◌&&◌, ◌==◌, str_eq, if◌then◌else◌, put, modify, put_absent,
}
use mathlib.Core.Option
use steam_lobby.Core.Types.{PlayerId, PlayerState, PlayerInfo, OpenSkillRating}
use steam_lobby.Core.Error.{ok}
use steam_lobby.Core.Action.{Action, modifies, gets}
use steam_lobby.Store.Rows.{UserRow, PlayerStateRow}
use steam_lobby.Store.Numbers.{Numbers}
use steam_lobby.Store.Db.{Db}

-- The join of `users` and `player_state`.
abbrev pub player_info : PlayerId → Option UserRow → Option PlayerStateRow → Option PlayerInfo
player_info id none _ = none
player_info id (some _) none = none
player_info id (some u) (some p) = some (record {
  user_id = id;
  display_name = u.display_name;
  state = p.state;
  last_heartbeat = p.last_heartbeat;
})

-- UPDATE ratings … WHERE user_id = u AND game_mode = mode
abbrev pub update_rating_row :
    {R : Type 0}
    → PlayerId
    → String
    → (OpenSkillRating R → OpenSkillRating R)
    → (ℕ → String → Option (OpenSkillRating R))
    → ℕ
    → String
    → Option (OpenSkillRating R)
update_rating_row u mode f t v m = if v == u && str_eq m mode then Option.map f (t v m) else t v m

-- INSERT INTO ratings … ON CONFLICT (user_id, game_mode) DO NOTHING
abbrev pub insert_rating_row :
    {R : Type 0}
    → PlayerId
    → String
    → OpenSkillRating R
    → (ℕ → String → Option (OpenSkillRating R))
    → ℕ
    → String
    → Option (OpenSkillRating R)
insert_rating_row u mode r t v m =
    if v == u && str_eq m mode then some (Option.get_or (t v m) r) else t v m

-- the inserted row, or the old row with its version counted up
abbrev bumped : Option UserRow → UserRow
bumped none = record { display_name = ""; token_version = 1 }
bumped (some u) = record u { token_version = u.token_version + 1 }

module _ {R : Type 0} where
  unfoldable pub upsert_player : PlayerId → String → Action (Db R) (Unit {0})
  upsert_player id name = modifies λ s. record s {
    users = modify id (λ u. if str_eq name "" then u else record u { display_name = name }) s.users;
    player_state =
        put_absent id
          (record {
            state = PlayerState.in_menus;
            last_heartbeat = s.now;
            active_match_token = none;
          })
          s.player_state;
  }

  unfoldable pub get_player_state : PlayerId → Action (Db R) (Option PlayerInfo)
  get_player_state id = gets λ s. player_info id (s.users id) (s.player_state id)

  unfoldable pub set_player_state : PlayerId → PlayerState → Action (Db R) (Unit {0})
  set_player_state id state =
      modifies
        λ s. record s { player_state = modify id (λ p. record p { state = state }) s.player_state }

  unfoldable pub update_heartbeat : PlayerId → Action (Db R) (Unit {0})
  update_heartbeat id = modifies λ s. record s {
    player_state = modify id (λ p. record p { last_heartbeat = s.now }) s.player_state;
  }

  -- COALESCE((SELECT token_version …), 0)
  unfoldable pub get_token_version : PlayerId → Action (Db R) ℕ
  get_token_version id = gets λ s. Option.get_or (Option.map (λ u. u.token_version) (s.users id)) 0

  unfoldable pub bump_token_version : PlayerId → Action (Db R) (Unit {0})
  bump_token_version id = modifies λ s. record s { users = put id (bumped (s.users id)) s.users }

module _ {R : Type 0} (N : Numbers R) where
  -- mu 25.0 and sigma 25.0 / 3.0
  abbrev pub default_rating : ℕ → OpenSkillRating R
  default_rating now = record {
    mu = N.lit 25;
    sigma = N.div (N.lit 25) (N.lit 3);
    last_updated = now;
  }

  unfoldable pub get_rating : PlayerId → String → Action (Db R) (OpenSkillRating R)
  get_rating id mode s = (
    ok (Option.get_or (s.ratings id mode) (default_rating s.now)),
    record s { ratings = insert_rating_row id mode (default_rating s.now) s.ratings },
  )

module _ {R : Type 0} where
  unfoldable pub update_rating : PlayerId → String → OpenSkillRating R → Action (Db R) (Unit {0})
  update_rating id mode r = modifies λ s. record s {
    ratings =
        update_rating_row id mode (λ _. record { mu = r.mu; sigma = r.sigma; last_updated = s.now })
          s.ratings;
  }
