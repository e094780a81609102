-- ===== src/Ranked/Drain/Places.antt =====
-- Since when a player waits in the queue of a mode, once a place is given back (lobby-server/src/db/queue.rs).
use mathlib.Core.Option
use Prim.Native.Nat.{min}
use steam_lobby.Prelude.{
  String, Bool, true, false, ◌&&◌, ◌==◌, ==_refl, str_eq, str_eq_refl, ◌≡◌, refl, ◌∙◌, ap, arith,
  Option, none, some, Bool-cases, inl, inr, List, [], ◌∷◌, ◌++◌, find, any, update,
}
use steam_lobby.Core.Types.{PlayerId, DateTime}
use steam_lobby.Store.Rows.{QueueRow}
use steam_lobby.Store.Queue.{requeued, delete_other_modes}

abbrev pub is_place : {R : Type 0} → PlayerId → String → QueueRow R → Bool
is_place id mode q = q.user_id == id && str_eq q.game_mode mode

abbrev pub waits_since : {R : Type 0} → PlayerId → String → List (QueueRow R) → Option DateTime
waits_since id mode rows = Option.map (λ q. q.queued_at) (find (is_place id mode) rows)

abbrev pub earliest : DateTime → Option DateTime → DateTime
earliest given none = given
earliest given (some since) = min since given

module _ {R : Type 0} (q : QueueRow R) where
  abbrev moved : QueueRow R → QueueRow R
  moved old = record old {
    match_difficulty = q.match_difficulty;
    mu = q.mu;
    queued_at = min old.queued_at q.queued_at;
    lease_expires_at = q.lease_expires_at;
  }

  abbrev own : QueueRow R → Bool
  own = is_place q.user_id q.game_mode

  waits-delete :
      (rows : List (QueueRow R))
      → waits_since q.user_id q.game_mode (delete_other_modes q.user_id q.game_mode rows)
        ≡ waits_since q.user_id q.game_mode rows
  waits-delete [] = refl
  waits-delete (x ∷ rows) = ground (arith, waits-delete rows)

  waits-update :
      (rows : List (QueueRow R))
      → any own rows ≡ true
      → waits_since q.user_id q.game_mode (update own moved rows)
        ≡ some (earliest q.queued_at (waits_since q.user_id q.game_mode rows))
  waits-update [] there = absurd (ground arith)
  waits-update (x ∷ rows) there = ground (arith, waits-update rows)

  waits-append :
      (rows : List (QueueRow R))
      → any own rows ≡ false
      → waits_since q.user_id q.game_mode (rows ++ q ∷ [])
        ≡ some (earliest q.queued_at (waits_since q.user_id q.game_mode rows))
  waits-append [] absent = rw (==_refl q.user_id, str_eq_refl q.game_mode) refl
  waits-append (x ∷ rows) absent = ground (arith, waits-append rows)

  -- who gets a place back waits since then, or since it waited before if that is earlier
  pub waits-requeued :
      (rows : List (QueueRow R))
      → waits_since q.user_id q.game_mode (requeued q rows)
        ≡ some (earliest q.queued_at (waits_since q.user_id q.game_mode rows))
  waits-requeued rows =
      let kept = delete_other_modes q.user_id q.game_mode rows in
      elim (Bool-cases (any own kept)) [
        | inl there ↦
            rw there (
              waits-update kept there ∙ ap (λ w. some (earliest q.queued_at w)) (waits-delete rows))
        | inr absent ↦
            rw absent (
              waits-append kept absent
              ∙ ap (λ w. some (earliest q.queued_at w)) (waits-delete rows))
      ]

  module _ (id : PlayerId) (mode : String) (other : (q.user_id == id) ≡ false) where
    others-delete :
        (rows : List (QueueRow R))
        → waits_since id mode (delete_other_modes q.user_id q.game_mode rows)
          ≡ waits_since id mode rows
    others-delete [] = refl
    others-delete (x ∷ rows) = ground (arith, others-delete rows)

    others-update :
        (rows : List (QueueRow R))
        → waits_since id mode (update own moved rows) ≡ waits_since id mode rows
    others-update [] = refl
    others-update (x ∷ rows) = ground (arith, others-update rows)

    others-append :
        (rows : List (QueueRow R)) → waits_since id mode (rows ++ q ∷ []) ≡ waits_since id mode rows
    others-append [] = rw other refl
    others-append (x ∷ rows) = ground (arith, others-append rows)

    pub others-requeued :
        (rows : List (QueueRow R))
        → waits_since id mode (requeued q rows) ≡ waits_since id mode rows
    others-requeued rows =
        let kept = delete_other_modes q.user_id q.game_mode rows in
        elim (Bool-cases (any own kept)) [
          | inl there ↦ rw there (others-update kept ∙ others-delete rows)
          | inr absent ↦ rw absent (others-append kept ∙ others-delete rows)
        ]
