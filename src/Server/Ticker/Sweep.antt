-- ===== src/Server/Ticker/Sweep.antt =====
-- What the sweep of stale queue entries leaves (lobby-server/src/ticker.rs).
use mathlib.Core.Option
use mathlib.Core.Path.{subst}
use steam_lobby.Prelude.{
  ◌-◌, ◌+◌, ltb, is_some, Bool, true, false, not, ◌&&◌, ◌||◌, ◌==◌, Option, none, some, ◌≡◌, refl,
  arith, ◌∙◌, ap, List, [], ◌∷◌, map, select, any, if◌then◌else◌,
}
use steam_lobby.Core.Types.{PlayerId, PlayerState, DateTime}
use steam_lobby.Core.Action.{Action, ◌>>◌}
use steam_lobby.Core.Error.{ok}
use steam_lobby.Store.Rows.{QueueRow, PlayerStateRow}
use steam_lobby.Store.Queue.{is_stale, seconds, cleanup_stale}
use steam_lobby.Core.Player.{handle_disconnect}
use steam_lobby.Server.State.{AppState}
use steam_lobby.Server.Ticker.{each, reset_player, tell_expired, signal_expired, sweep}

abbrev pub has_id : PlayerId → List PlayerId → Bool
has_id u = any λ v. v == u

abbrev in_menus : PlayerStateRow → PlayerStateRow
in_menus p = record p { state = PlayerState.in_menus }

-- back to the menus, where the player is one of those
abbrev pub reset_if : Bool → Option PlayerStateRow → Option PlayerStateRow
reset_if true row = Option.map in_menus row
reset_if false row = row

reset_twice :
    (b c : Bool) (row : Option PlayerStateRow)
    → reset_if c (if b then Option.map in_menus row else row) ≡ reset_if (b || c) row
reset_twice true true none = refl
reset_twice true true (some p) = refl
reset_twice true false row = refl
reset_twice false c row = refl

-- Nobody is there any more: the player is in no match, and its lease has run out, or, where it has
-- none, its last heartbeat was more than 30 seconds ago. An entry of a player without a row stays.
abbrev pub is_gone : DateTime → Option DateTime → Option PlayerStateRow → Bool
is_gone now lease none = false
is_gone now none (some p) =
    not (is_some p.active_match_token) && ltb (p.last_heartbeat + 30_000_000) now
is_gone now (some end) (some p) = not (is_some p.active_match_token) && not (ltb now end)

module _ {R : Type 0} where
  each_reset :
      (u : PlayerId) (removed : List PlayerId) (s : AppState R)
      → (each reset_player removed s).1.db.player_state u
        ≡ reset_if (has_id u removed) (s.db.player_state u)
  unfolding handle_disconnect
  each_reset u [] s = refl
  each_reset u (v ∷ removed) s =
      each_reset u removed (reset_player v s).1
      ∙ reset_twice (v == u) (has_id u removed) (s.db.player_state u)

  each_reset-queue :
      (removed : List PlayerId) (s : AppState R)
      → (each reset_player removed s).1.db.queue ≡ s.db.queue
  unfolding handle_disconnect
  each_reset-queue [] s = refl
  each_reset-queue (v ∷ removed) s = each_reset-queue removed (reset_player v s).1

  each_tell-db :
      (removed : List PlayerId) (s : AppState R) → (each tell_expired removed s).1.db ≡ s.db
  unfolding tell_expired
  each_tell-db [] s = refl
  each_tell-db (v ∷ removed) s = each_tell-db removed (tell_expired v s).1

  each_signal-db :
      (removed : List PlayerId) (s : AppState R) → (each signal_expired removed s).1.db ≡ s.db
  unfolding signal_expired
  each_signal-db [] s = refl
  each_signal-db (v ∷ removed) s = each_signal-db removed (signal_expired v s).1

  has_id-select :
      (u : PlayerId) (p : QueueRow R → Bool) (rows : List (QueueRow R))
      → has_id u (map (λ q. q.user_id) (select p rows)) ≡ any (λ q. q.user_id == u && p q) rows
  has_id-select u p [] = refl
  has_id-select u p (q ∷ rows) = ground (arith, has_id-select u p rows)

  abbrev pub is_abandoned : AppState R → QueueRow R → Bool
  is_abandoned s q = is_gone s.db.now q.lease_expires_at (s.db.player_state q.user_id)

  -- the entries are removed, and the players who had one are reset
  abbrev pub Sweeps : AppState R → (QueueRow R → Bool) → AppState R → Type 0
  Sweeps s gone after =
      (after.db.queue ≡ select (λ q. not (gone q)) s.db.queue)
      × ((u : PlayerId)
          → after.db.player_state u
            ≡ reset_if (any (λ q. q.user_id == u && gone q) s.db.queue) (s.db.player_state u))

  -- whether an entry is stale when the sweep runs
  abbrev is_stale_at : AppState R → QueueRow R → Bool
  is_stale_at s q = is_stale s.db.now (s.db.now - seconds 30) q (s.db.player_state q.user_id)

  each_reset-ok : (xs : List PlayerId) (s : AppState R) → (each reset_player xs s).0 ≡ ok tt
  each_reset-ok [] s = refl
  each_reset-ok (x ∷ xs) s = each_reset-ok xs (reset_player x s).1

  each_tell-ok : (xs : List PlayerId) (s : AppState R) → (each tell_expired xs s).0 ≡ ok tt
  unfolding tell_expired
  each_tell-ok [] s = refl
  each_tell-ok (x ∷ xs) s = each_tell-ok xs (tell_expired x s).1

  and_then :
      (m n : Action (AppState R) (Unit {0})) (s : AppState R)
      → (m s).0 ≡ ok tt
      → (m >> n) s ≡ n (m s).1
  and_then m n s fine = rw fine refl

  sweep-db :
      (s : AppState R)
      → (sweep s).1.db
        ≡ (each reset_player (map (λ q. q.user_id) (select (is_stale_at s) s.db.queue)) (record s {
          db = record s.db { queue = select (λ q. not (is_stale_at s q)) s.db.queue };
        })).1.db
  unfolding sweep cleanup_stale
  sweep-db s =
      let removed = map (λ q. q.user_id) (select (is_stale_at s) s.db.queue) in
      let reset = each reset_player removed in
      let tell = each tell_expired removed in
      let signal = each signal_expired removed in
      let swept = record s {
        db = record s.db { queue = select (λ q. not (is_stale_at s q)) s.db.queue };
      } in
      let after = (reset swept).1 in
      ap (λ out. out.1.db) (and_then reset (tell >> signal) swept (each_reset-ok removed swept))
      ∙ ap (λ out. out.1.db) (and_then tell signal after (each_tell-ok removed after))
      ∙ each_signal-db removed (tell after).1
      ∙ each_tell-db removed after

  swept_stale : (s : AppState R) → Sweeps s (is_stale_at s) (sweep s).1
  swept_stale s =
      let removed = map (λ q. q.user_id) (select (is_stale_at s) s.db.queue) in
      let swept = record s {
        db = record s.db { queue = select (λ q. not (is_stale_at s q)) s.db.queue };
      } in
      (
        ap (λ d. d.queue) (sweep-db s) ∙ each_reset-queue removed swept,
        λ u.
            ap (λ d. d.player_state u) (sweep-db s)
            ∙ each_reset u removed swept
            ∙ ap (λ b. reset_if b (s.db.player_state u))
                (has_id-select u (is_stale_at s) s.db.queue),
      )

  stale-abandoned : (s : AppState R) (q : QueueRow R) → is_stale_at s q ≡ is_abandoned s q
  stale-abandoned s q = agrees s.db.now q.lease_expires_at q (s.db.player_state q.user_id) refl
    where
      agrees :
          (now : DateTime) (lease : Option DateTime) (q : QueueRow R) (row : Option PlayerStateRow)
          → q.lease_expires_at ≡ lease
          → is_stale now (now - seconds 30) q row ≡ is_gone now lease row
      agrees now none q none e = refl
      agrees now (some end) q none e = refl
      agrees now none q (some p) e = ground arith
      agrees now (some end) q (some p) e = ground arith

  -- The sweep removes exactly the queue entries of players who are in no match and whose lease has run
  -- out or, without a lease, whose last heartbeat was more than 30 seconds ago; and it puts exactly
  -- the players who had such an entry back to the menus; every other player's state stays as it was.
  pub sweep_stale : (s : AppState R) → Sweeps s (is_abandoned s) (sweep s).1
  sweep_stale s =
      subst (λ gone. Sweeps s gone (sweep s).1) (λ i q. stale-abandoned s q i) (swept_stale s)
