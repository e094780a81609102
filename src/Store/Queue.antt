-- ===== src/Store/Queue.antt =====
-- The table matchmaking_queue (lobby-server/src/db/queue.rs, and the upserts of the ranked code).
use Prim.Native.Nat.{min}
use mathlib.Core.Option
use steam_lobby.Prelude.{
  ℕ, ◌*◌, ◌-◌, String, Option, none, some, Bool, false, not, ◌&&◌, ◌==◌, str_eq, any, leb, ltb,
  select, update, if◌then◌else◌, List, [], ◌∷◌, ◌++◌, map, is_none,
}
use steam_lobby.Core.Types.{PlayerId, DateTime, QueueEntry}
use steam_lobby.Core.Action.{Action, modifies, gets}
use steam_lobby.Core.Error.{ok}
use steam_lobby.Store.Rows.{QueueRow, PlayerStateRow}
use steam_lobby.Store.Db.{Db}

abbrev pub is_entry : {R : Type 0} → PlayerId → String → QueueRow R → Bool
is_entry id mode q = q.user_id == id && str_eq q.game_mode mode

-- INSERT … ON CONFLICT (user_id, game_mode) DO UPDATE SET f
abbrev pub upsert :
    {R : Type 0} → QueueRow R → (QueueRow R → QueueRow R) → List (QueueRow R) → List (QueueRow R)
upsert q f rows =
    if any (is_entry q.user_id q.game_mode) rows
    then update (is_entry q.user_id q.game_mode) f rows
    else rows ++ q ∷ []

-- DELETE FROM matchmaking_queue WHERE user_id = id AND game_mode <> mode
abbrev pub delete_other_modes :
    {R : Type 0} → PlayerId → String → List (QueueRow R) → List (QueueRow R)
delete_other_modes id mode = select λ q. not (q.user_id == id && not (str_eq q.game_mode mode))

-- The upsert that puts a player back at the place that it had in the queue.
abbrev pub requeued : {R : Type 0} → QueueRow R → List (QueueRow R) → List (QueueRow R)
requeued q rows =
    upsert q
      (λ old. record old {
        match_difficulty = q.match_difficulty;
        mu = q.mu;
        queued_at = min old.queued_at q.queued_at;
        lease_expires_at = q.lease_expires_at;
      })
      (delete_other_modes q.user_id q.game_mode rows)

abbrev pub seconds : ℕ → ℕ
seconds n = n * 1_000_000

abbrev pub to_entry : {R : Type 0} → QueueRow R → QueueEntry R
to_entry q = record {
  user_id = q.user_id;
  game_mode = q.game_mode;
  difficulty = q.match_difficulty;
  mu = q.mu;
  queued_at = q.queued_at;
}

-- The condition of the DELETE of `remove_stale_queue_entries`: a legacy row is stale once its
-- player's last heartbeat is older than the timeout, a leased row once its lease has run out, and no
-- row of a player with an active match is.
abbrev lapsed : DateTime → DateTime → Option DateTime → DateTime → Bool
lapsed now cutoff none last_heartbeat = ltb last_heartbeat cutoff
lapsed now cutoff (some lease) last_heartbeat = leb lease now

abbrev pub is_stale : {R : Type 0} → DateTime → DateTime → QueueRow R → Option PlayerStateRow → Bool
is_stale now cutoff q none = false
is_stale now cutoff q (some p) =
    is_none p.active_match_token && lapsed now cutoff q.lease_expires_at p.last_heartbeat

module _ {R : Type 0} where
  -- ORDER BY queued_at DESC LIMIT 1
  abbrev pub latest : QueueRow R → List (QueueRow R) → QueueRow R
  latest x [] = x
  latest x (y ∷ ys) = if ltb x.queued_at y.queued_at then latest y ys else latest x ys

  abbrev pub latest_of : List (QueueRow R) → Option (QueueRow R)
  latest_of [] = none
  latest_of (x ∷ xs) = some (latest x xs)

  unfoldable pub get_queued_entry : PlayerId → Action (Db R) (Option (QueueEntry R))
  get_queued_entry id =
      gets λ s. Option.map to_entry (latest_of (select (λ q. q.user_id == id) s.queue))

  unfoldable pub enqueue : QueueEntry R → Action (Db R) (Unit {0})
  enqueue e = modifies λ s. record s {
    queue =
        upsert
          (record {
            user_id = e.user_id;
            game_mode = e.game_mode;
            match_difficulty = e.difficulty;
            mu = e.mu;
            queued_at = s.now;
            lease_expires_at = none;
          })
          (λ old. record old { match_difficulty = e.difficulty; mu = e.mu; queued_at = s.now })
          s.queue;
  }

  unfoldable pub dequeue : PlayerId → String → Action (Db R) (Unit {0})
  dequeue id mode =
      modifies λ s. record s { queue = select (λ q. not (is_entry id mode q)) s.queue }

  unfoldable pub get_queue : String → Action (Db R) (List (QueueEntry R))
  get_queue mode = gets λ s. map to_entry (select (λ q. str_eq q.game_mode mode) s.queue)

  -- `timeout` is in microseconds; the answer is the players of the rows that were removed
  unfoldable pub remove_stale_queue_entries : ℕ → Action (Db R) (List PlayerId)
  remove_stale_queue_entries timeout s =
      let stale =
        λ (q : QueueRow R). is_stale s.now (s.now - timeout) q (s.player_state q.user_id) in
      (
        ok (map (λ (q : QueueRow R). q.user_id) (select stale s.queue)),
        record s { queue = select (λ q. not (stale q)) s.queue },
      )

  unfoldable pub is_queued : PlayerId → Action (Db R) Bool
  is_queued id = gets λ s. any (λ q. q.user_id == id) s.queue

  -- `queue::cleanup_stale` (lobby-core/src/queue.rs): 30 seconds
  unfoldable pub cleanup_stale : Action (Db R) (List PlayerId)
  unfolding remove_stale_queue_entries
  cleanup_stale = remove_stale_queue_entries (seconds 30)
