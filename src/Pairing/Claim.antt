-- ===== src/Pairing/Claim.antt =====
-- One transaction on two candidates (`pair_next_match_with_accept_timeout`,
-- lobby-server/src/db/queue.rs).
use steam_lobby.Prelude.{
  ◌-◌, Option, none, some, Bool, true, false, not, ◌&&◌, ◌||◌, find, if◌then◌else◌,
}
use steam_lobby.Core.Types.{PlayerId, DateTime, MatchInfo}
use steam_lobby.Core.Action.{Action, pure, transaction, ◌>>=◌}
use steam_lobby.Store.Rows.{QueueRow}
use steam_lobby.Store.Numbers.{Numbers}
use steam_lobby.Store.Db.{Db}
use steam_lobby.Store.Queue.{is_entry, seconds}
use steam_lobby.Store.Matches.{recent_match_between}
use steam_lobby.Pairing.Form.{Request, native, is_free, has_lease, form_match}
use steam_lobby.Pairing.Band.{is_in_band}

module _ {R : Type 0} where
  abbrev formed_unless : Bool → Action (Db R) MatchInfo → Action (Db R) (Option MatchInfo)
  formed_unless true form = pure none
  formed_unless false form = do m ← form; pure (some m)

module _ {R : Type 0} (N : Numbers R) where
  -- what the locked rows are checked for: both leases, then the band of `a`
  abbrev pub is_compatible : Request → DateTime → QueueRow R → QueueRow R → Bool
  is_compatible q now a b =
      not (native q && (not (has_lease now a) || not (has_lease now b))) && is_in_band N now a b

  -- the checks on the two locked rows
  abbrev pub claim_rows :
      Request
      → DateTime
      → Option (QueueRow R)
      → Option (QueueRow R)
      → Action (Db R) (Option MatchInfo)
  claim_rows q now none _ = pure none
  claim_rows q now (some a) none = pure none
  claim_rows q now (some a) (some b) =
      if is_compatible q now a b
      then (do
        on_cooldown ← recent_match_between a.user_id b.user_id (now - seconds q.pair_cooldown_secs)
        formed_unless on_cooldown (form_match q a b))
      else pure none

  -- One transaction on two players: `none` where it is rolled back and the next pair is tried.
  unfoldable pub claim : Request → PlayerId → PlayerId → Action (Db R) (Option MatchInfo)
  unfolding form_match recent_match_between
  claim q a b = transaction λ s.
      if is_free (s.player_state a) && is_free (s.player_state b)
      then claim_rows q s.now (find (is_entry a q.mode) s.queue) (find (is_entry b q.mode) s.queue)
          s
      else pure none s
