-- ===== src/Server/Perform.antt =====
-- The activities that a match workflow sends, run on the server's state
-- (lobby-server/src/temporal/workflows.rs over activities.rs).
use mathlib.Core.List.{append_assoc}
use steam_lobby.Prelude.{Bool, true, false, some, ◌≡◌, refl, ◌∙◌, ap, List, [], ◌∷◌, ◌++◌}
use steam_lobby.Core.Types.{Token, MatchStatus, MatchInfo}
use steam_lobby.Core.Error.{Result, ok, err}
use steam_lobby.Core.Action.{Action, pure, lift, ◌>>◌}
use steam_lobby.Store.Db.{Db}
use steam_lobby.Store.Numbers.{Numbers}
use steam_lobby.Workflow.{MatchArgs, Activity}
use steam_lobby.Workflow.Script.{opened, accepted, connected}
use steam_lobby.Server.State.{AppState}
use steam_lobby.Server.Activities
use steam_lobby.Server.Frames.{
  Leaves, verify_match-found, accept_match-Leaves, mark_connected-Leaves, mark_accepts-Leaves,
}
use steam_lobby.Server.Lifecycle.{
  Stands, first_accept, still_accepted, second_accept, first_connect, second_connect,
}

module _ {R : Type 0} (N : Numbers R) (t : Token) where
  unfoldable pub perform : Activity → Action (AppState R) (Unit {0})
  perform Activity.verify_match = Activities.verify_match t >> pure tt
  perform Activity.mark_accepts = Activities.mark_accepts t
  perform Activity.resolve_dispute = Activities.resolve_dispute t
  perform (Activity.handle_decline by) = Activities.handle_decline t by
  perform (Activity.accept_match user) = Activities.accept_match t user
  perform (Activity.mark_connected user) = Activities.mark_connected t user
  perform (Activity.resolve_start_forfeit winner) = Activities.resolve_start_forfeit N t winner
  perform (Activity.finish_match winner hashes) = Activities.finish_match N t winner

  -- one after the other, until one fails
  unfoldable pub perform_all : List Activity → Action (AppState R) (Unit {0})
  unfolding perform
  perform_all [] = pure tt
  perform_all (x ∷ xs) = perform x >> perform_all xs

continue_pure :
    {R : Type 0} (out : Result (Unit {0}) × AppState R) → (lift out.0 >> pure tt) out.1 ≡ out
continue_pure (ok u, s) = refl
continue_pure (err e, s) = refl

module _ {R : Type 0} (N : Numbers R) (t : Token) where
  then_perform :
      (x : Activity) (xs : List Activity) (s s' : AppState R)
      → perform N t x s ≡ (ok tt, s')
      → perform_all N t (x ∷ xs) s ≡ perform_all N t xs s'
  unfolding perform_all
  then_perform x xs s s' call = rw call refl

  pub perform_all-single :
      (x : Activity) (s : AppState R) → perform_all N t (x ∷ []) s ≡ perform N t x s
  unfolding perform_all
  perform_all-single x s = continue_pure (perform N t x s)

-- A call that has left the database so, with what holds of that.
module _ {R : Type 0} (p : MatchArgs) (t : Token) where
  -- The activities `xs` succeed from `s`, and leave the match in the status, with the flags.
  abbrev pub Reaches :
      Numbers R → List Activity → AppState R → MatchStatus → Bool × Bool → Bool × Bool → Type 0
  Reaches N xs s status accepts connects =
      (after : AppState R) × ((ys : List Activity)
        → perform_all N t (xs ++ ys) s ≡ perform_all N t ys after)
      × Stands p t after.db status accepts connects

  left :
      {status : MatchStatus} {accepts connects : Bool × Bool} (out : Result (Unit {0}) × AppState R)
      (d : Db R)
      → Leaves out d
      → Stands p t d status accepts connects
      → (out ≡ (ok tt, out.1)) × Stands p t out.1.db status accepts connects
  left out d (fine, same) h = (ap (λ r. (r, out.1)) fine, rw same h)

module _ {R : Type 0} (N : Numbers R) (p : MatchArgs) (t : Token) (s : AppState R) where
  verified :
      {m : MatchInfo} → s.db.matches t ≡ some m → perform N t Activity.verify_match s ≡ (ok tt, s)
  unfolding perform
  verified found = rw (verify_match-found t s found) refl

  accepts_a :
      (h : Stands p t s.db MatchStatus.pending_accept (false, false) (false, false))
      → let out = perform N t (Activity.accept_match p.player_a) s in
        (out ≡ (ok tt, out.1))
        × Stands p t out.1.db MatchStatus.pending_accept (true, false) (false, false)
  unfolding perform
  accepts_a h =
      let (fine, stands) = first_accept p t s.db h in
      left p t _ _ (accept_match-Leaves t s p.player_a fine) stands

  accepts_b :
      (h : Stands p t s.db MatchStatus.pending_accept (true, false) (false, false))
      → let out = perform N t (Activity.accept_match p.player_b) s in
        (out ≡ (ok tt, out.1))
        × Stands p t out.1.db MatchStatus.in_progress (true, true) (false, false)
  unfolding perform
  accepts_b h =
      let (fine, stands) = second_accept p t s.db h in
      left p t _ _ (accept_match-Leaves t s p.player_b fine) stands

  marks :
      (h : Stands p t s.db MatchStatus.in_progress (true, true) (false, false))
      → let out = perform N t Activity.mark_accepts s in
        (out ≡ (ok tt, out.1))
        × Stands p t out.1.db MatchStatus.in_progress (true, true) (false, false)
  unfolding perform
  marks h = left p t _ _ (mark_accepts-Leaves t s h.found) (still_accepted p t s.db h)

  connects_a :
      (h : Stands p t s.db MatchStatus.in_progress (true, true) (false, false))
      → let out = perform N t (Activity.mark_connected p.player_a) s in
        (out ≡ (ok tt, out.1))
        × Stands p t out.1.db MatchStatus.in_progress (true, true) (true, false)
  unfolding perform
  connects_a h =
      let (fine, stands) = first_connect p t s.db h in
      left p t _ _ (mark_connected-Leaves t s p.player_a fine) stands

  connects_b :
      (h : Stands p t s.db MatchStatus.in_progress (true, true) (true, false))
      → let out = perform N t (Activity.mark_connected p.player_b) s in
        (out ≡ (ok tt, out.1)) × Stands p t out.1.db MatchStatus.reporting (true, true) (true, true)
  unfolding perform
  connects_b h =
      let (fine, stands) = second_connect p t s.db h in
      left p t _ _ (mark_connected-Leaves t s p.player_b fine) stands

module _ {R : Type 0} (N : Numbers R) (p : MatchArgs) (t : Token) where
  -- one more activity
  reach :
      (xs : List Activity) (x : Activity) (s : AppState R) {before after : MatchStatus}
      {a b c d : Bool × Bool}
      → Reaches p t N xs s before a b
      → ((s' : AppState R)
          → Stands p t s'.db before a b
          → let out = perform N t x s' in (out ≡ (ok tt, out.1)) × Stands p t out.1.db after c d)
      → Reaches p t N (xs ++ x ∷ []) s after c d
  reach xs x s (s', runs, h) step =
      let (call, stands) = step s' h in
      (
        (perform N t x s').1,
        λ ys. rw (append_assoc xs (x ∷ []) ys) (runs (x ∷ ys) ∙ then_perform N t x ys s' _ call),
        stands,
      )

  pub opened-Reaches :
      (s : AppState R)
      → Stands p t s.db MatchStatus.pending_accept (false, false) (false, false)
      → Reaches p t N opened s MatchStatus.pending_accept (false, false) (false, false)
  opened-Reaches s h =
      (s, λ ys. then_perform N t Activity.verify_match ys s s (verified N p t s h.found), h)

  pub accepted-Reaches :
      (s : AppState R)
      → Stands p t s.db MatchStatus.pending_accept (false, false) (false, false)
      → Reaches p t N (accepted p) s MatchStatus.in_progress (true, true) (false, false)
  accepted-Reaches s h =
      let first = reach opened _ s (opened-Reaches s h) (accepts_a N p t) in
      let second =
        reach (opened ++ Activity.accept_match p.player_a ∷ []) _ s first (accepts_b N p t) in
      reach (opened ++ Activity.accept_match p.player_a ∷ Activity.accept_match p.player_b ∷ [])
        Activity.mark_accepts s second (marks N p t)

  pub connected-Reaches :
      (s : AppState R)
      → Stands p t s.db MatchStatus.pending_accept (false, false) (false, false)
      → Reaches p t N (connected p) s MatchStatus.reporting (true, true) (true, true)
  connected-Reaches s h =
      let first = reach (accepted p) _ s (accepted-Reaches s h) (connects_a N p t) in
      reach (accepted p ++ Activity.mark_connected p.player_a ∷ []) _ s first (connects_b N p t)
