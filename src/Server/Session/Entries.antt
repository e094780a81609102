-- ===== src/Server/Session/Entries.antt =====
-- The queue entries and the state of a player under the activities of another player's session
-- (lobby-server/src/temporal/activities.rs).
use mathlib.Core.Option
use steam_lobby.Prelude.{
  String, Bool, true, false, Option, none, some, ◌==◌, ◌≡◌, refl, arith, List, [], ◌∷◌, ◌++◌,
  select, update, not,
}
use steam_lobby.Core.Types.{PlayerId}
use steam_lobby.Store.Rows.{QueueRow}
use steam_lobby.Store.Queue.{upsert, is_entry, latest, latest_of, to_entry, enqueue, dequeue}
use steam_lobby.Store.Numbers.{Numbers}
use steam_lobby.Store.Players.{default_rating, get_rating, update_heartbeat, get_player_state}
use steam_lobby.Store.Players
use steam_lobby.Server.State.{AppState, QueueArgs}
use steam_lobby.Server.Activities.{set_player_state, enter_queue, leave_queue}
use steam_lobby.Server.Session.{of_entry}

-- the entries of a player
abbrev pub entries : {R : Type 0} → PlayerId → List (QueueRow R) → List (QueueRow R)
entries j = select λ q. q.user_id == j

module _ {R : Type 0} (j : PlayerId) where
  entries-append :
      (rows : List (QueueRow R)) (q : QueueRow R)
      → (q.user_id == j) ≡ false
      → entries j (rows ++ q ∷ []) ≡ entries j rows
  entries-append [] q other = ground arith
  entries-append (x ∷ rows) q other = ground (arith, entries-append rows q other)

  entries-update :
      (user : PlayerId) (mode : String) (f : QueueRow R → QueueRow R) (rows : List (QueueRow R))
      → (user == j) ≡ false
      → ((q : QueueRow R) → (f q).user_id ≡ q.user_id)
      → entries j (update (is_entry user mode) f rows) ≡ entries j rows
  entries-update user mode f [] other same = refl
  entries-update user mode f (x ∷ rows) other same =
      ground (arith, entries-update user mode f rows other same, same x)

  entries-delete :
      (user : PlayerId) (mode : String) (rows : List (QueueRow R))
      → (user == j) ≡ false
      → entries j (select (λ q. not (is_entry user mode q)) rows) ≡ entries j rows
  entries-delete user mode [] other = refl
  entries-delete user mode (x ∷ rows) other = ground (arith, entries-delete user mode rows other)

  entries-upsert :
      (q : QueueRow R) (f : QueueRow R → QueueRow R) (rows : List (QueueRow R))
      → (q.user_id == j) ≡ false
      → ((x : QueueRow R) → (f x).user_id ≡ x.user_id)
      → entries j (upsert q f rows) ≡ entries j rows
  entries-upsert q f rows other same =
      ground
        (arith, entries-append rows q other, entries-update q.user_id q.game_mode f rows other same)

  -- What the server keeps of the player: its state and its queue entries.
  abbrev pub Untouched : AppState R → AppState R → Type 0
  Untouched a b =
      (b.db.player_state j ≡ a.db.player_state j) × (entries j b.db.queue ≡ entries j a.db.queue)

  pub sets-Untouched :
      (user : PlayerId) (state : _) (a : AppState R)
      → (user == j) ≡ false
      → Untouched a (set_player_state user state a).1
  unfolding set_player_state Players.set_player_state
  sets-Untouched user state a other = (ground arith, refl)

  pub leaves-Untouched :
      (args : QueueArgs) (a : AppState R)
      → (args.user_id == j) ≡ false
      → Untouched a (leave_queue args a).1
  unfolding leave_queue dequeue
  leaves-Untouched args a other = (refl, entries-delete args.user_id args.mode a.db.queue other)

  pub enters-Untouched :
      (N : Numbers R) (args : QueueArgs) (a : AppState R)
      → (args.user_id == j) ≡ false
      → Untouched a (enter_queue N args a).1
  unfolding enter_queue enqueue get_rating update_heartbeat
  enters-Untouched N args a other = (
    ground arith,
    entries-upsert
        (record {
          user_id = args.user_id;
          game_mode = args.mode;
          match_difficulty = args.difficulty;
          mu = mu;
          queued_at = a.db.now;
          lease_expires_at = none;
        })
        (λ old. record old { match_difficulty = args.difficulty; mu = mu; queued_at = a.db.now })
        a.db.queue other (λ x. refl),
  )
    where
      mu : R
      mu = (Option.get_or (a.db.ratings args.user_id args.mode) (default_rating N a.db.now)).mu

-- whether the queue entry that is carried along, if any, is the user's
abbrev pub carries : PlayerId → Option QueueArgs → Bool
carries user none = true
carries user (some args) = args.user_id == user

module _ {R : Type 0} (id : PlayerId) where
  latest-owner :
      (x : QueueRow R) (rows : List (QueueRow R))
      → x.user_id ≡ id
      → (latest x (entries id rows)).user_id ≡ id
  latest-owner x [] own = own
  latest-owner x (y ∷ rows) own = ground (arith, latest-owner x rows own, latest-owner y rows)

  pub found-owner :
      (rows : List (QueueRow R))
      → carries id (Option.map of_entry (Option.map to_entry (latest_of (entries id rows)))) ≡ true
  found-owner [] = refl
  found-owner (x ∷ rows) = ground (arith, latest-owner x rows, found-owner rows)
