-- ===== src/Pairing/Next.antt =====
-- The search through the candidates (`pair_next_match`, lobby-server/src/db/queue.rs).
use steam_lobby.Prelude.{
  ℕ, String, Option, none, some, Bool, not, ◌&&◌, ◌||◌, ◌==◌, str_eq, ltb, select, length,
  if◌then◌else◌, List, [], ◌∷◌,
}
use steam_lobby.Core.Types.{DateTime, MatchInfo, ModeSpec}
use steam_lobby.Core.Action.{Action, pure, gets, ◌>>=◌}
use steam_lobby.Store.Rows.{QueueRow}
use steam_lobby.Store.Numbers.{Numbers}
use steam_lobby.Store.Db.{Db}
use steam_lobby.Pairing.Form.{Request, native, has_lease}
use steam_lobby.Pairing.Band.{is_in_band}
use steam_lobby.Pairing.Claim.{claim}

module _ {R : Type 0} where
  -- ORDER BY queued_at, user_id
  abbrev pub is_before : QueueRow R → QueueRow R → Bool
  is_before x y =
      ltb x.queued_at y.queued_at || (x.queued_at == y.queued_at && ltb x.user_id y.user_id)

  unfoldable pub insert_in_order : QueueRow R → List (QueueRow R) → List (QueueRow R)
  insert_in_order x [] = x ∷ []
  insert_in_order x (y ∷ ys) =
      let rest = insert_in_order x ys in if is_before y x then y ∷ rest else x ∷ y ∷ ys

  unfoldable pub in_order : List (QueueRow R) → List (QueueRow R)
  unfolding insert_in_order
  in_order [] = []
  in_order (x ∷ xs) = insert_in_order x (in_order xs)

  -- the candidates are read once, at `now`; where a claim pairs nobody the next one is tried
  abbrev pub or_next :
      Action (Db R) (Option MatchInfo)
      → Action (Db R) (Option MatchInfo)
      → Action (Db R) (Option MatchInfo)
  or_next first next = do found ← first; elim found [ none ↦ next | some m ↦ pure (some m) ]

module _ {R : Type 0} (N : Numbers R) where
  abbrev pub is_hint : Request → DateTime → QueueRow R → QueueRow R → Bool
  is_hint q now a b =
      not (b.user_id == a.user_id)
      && not (native q && not (has_lease now b))
      && is_in_band N now a b

  -- the inner loop: the opponents of `a`
  unfoldable pub pair_with :
      Request → DateTime → QueueRow R → List (QueueRow R) → Action (Db R) (Option MatchInfo)
  unfolding claim is_in_band
  pair_with q now a [] = pure none
  pair_with q now a (b ∷ bs) =
      let rest = pair_with q now a bs in
      if is_hint q now a b then or_next (claim N q a.user_id b.user_id) rest else rest

  -- the outer loop
  unfoldable pub pair_each :
      Request → DateTime → List (QueueRow R) → List (QueueRow R) → Action (Db R) (Option MatchInfo)
  unfolding pair_with
  pair_each q now candidates [] = pure none
  pair_each q now candidates (a ∷ rows) =
      let rest = pair_each q now candidates rows in
      if native q && not (has_lease now a)
      then rest
      else or_next (pair_with q now a candidates) rest

  unfoldable pub pair_next_match_with_accept_timeout : Request → Action (Db R) (Option MatchInfo)
  unfolding in_order pair_each
  pair_next_match_with_accept_timeout q = do
    rows ← gets (λ s. s.queue)
    let candidates = in_order (select (λ row. str_eq row.game_mode q.mode) rows)
    now ← gets (λ s. s.now)
    if ltb (length candidates) 2 then pure none else pair_each q now candidates candidates

  unfoldable pub pair_next_match : String → ModeSpec → ℕ → Action (Db R) (Option MatchInfo)
  unfolding pair_next_match_with_accept_timeout
  pair_next_match mode spec cooldown = pair_next_match_with_accept_timeout (record {
    mode = mode;
    spec = spec;
    pair_cooldown_secs = cooldown;
    match_accept_timeout_secs = 15;
  })
