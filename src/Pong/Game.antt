-- ===== src/Pong/Game.antt =====
-- Every game that is played can be serialised (lobby-core/src/pong.rs).
use steam_lobby.Prelude.{ℕ, zero, suc, ◌≡◌, refl, ap, ◌∙◌, arith, true, ◌&&◌, Option}
use steam_lobby.Pong.State.{PongGame, PongSide, F64, full_state, restore, left, right}
use steam_lobby.Pong.Play.{
  new_game, set_target, move_paddle, step_ball, bounce_walls, hit_paddle, substep, substeps, serve,
  score, move_ball, step,
}
use steam_lobby.Pong.Restore.{IsFaithful, is_target, has_targets, restore-full_state}

module _ {R : Type 0} (F : F64 R) where
  -- a game from its start on: targets are set and time passes
  pub data Played : PongGame R → Type 0 where
    fresh : Played (new_game F)
    aimed :
        {g : PongGame R} (side : PongSide) (target : R)
        → Played g
        → Played (set_target F side target g)
    stepped : {g : PongGame R} (dt : R) → Played g → Played (step F dt g)

  -- the targets of both players
  abbrev targets : PongGame R → Option R × Option R
  targets g = (g.left_target, g.right_target)

  targets-substep : (dt : R) (g : PongGame R) → targets (substep F dt g) ≡ targets g
  unfolding substep step_ball bounce_walls hit_paddle
  targets-substep dt g = ground arith

  targets-substeps : (n : ℕ) (dt : R) (g : PongGame R) → targets (substeps F n dt g) ≡ targets g
  unfolding substeps
  targets-substeps zero dt g = refl
  targets-substeps (suc n) dt g = targets-substeps n dt (substep F dt g) ∙ targets-substep dt g

  targets-score : (g : PongGame R) → targets (score F g) ≡ targets g
  unfolding score serve
  targets-score g = ground arith

  targets-move_ball : (dt : R) (g : PongGame R) → targets (move_ball F dt g) ≡ targets g
  unfolding move_ball
  targets-move_ball dt g =
      let n = F.ceil_from_one (F.div (F.mul g.speed dt) (F.ratio 5 1000)) in
      let part = F.div dt (F.of_usize n) in
      targets-score (substeps F n part g) ∙ targets-substeps n part g

  targets-step : (dt : R) (g : PongGame R) → targets (step F dt g) ≡ targets g
  unfolding step move_paddle
  targets-step dt g = targets-move_ball dt (move_paddle F right dt (move_paddle F left dt g))

  module _ (f : IsFaithful F) where
    set_target-has_targets :
        (side : PongSide) (target : R) (g : PongGame R)
        → has_targets F g ≡ true
        → has_targets F (set_target F side target g) ≡ true
    unfolding set_target
    set_target-has_targets left target g ok = rw (f.clamped target) (ground arith)
    set_target-has_targets right target g ok = rw (f.clamped target) (ground arith)

    Played-has_targets : (g : PongGame R) → Played g → has_targets F g ≡ true
    unfolding new_game
    Played-has_targets _ fresh = refl
    Played-has_targets _ (aimed {g = g} side target p) =
        set_target-has_targets side target g (Played-has_targets g p)
    Played-has_targets _ (stepped {g = g} dt p) =
        ap (λ t. is_target F t.0 && is_target F t.1) (targets-step dt g) ∙ Played-has_targets g p

    -- A game that was played from its start on, with whatever targets and time steps, is restored
    -- from its serialised state, where f64 reads back from its bytes and clamps as it documents.
    pub restore-Played : (g : PongGame R) → Played g → restore F (full_state F g) ≡ g
    restore-Played g p = restore-full_state F f g (Played-has_targets g p)
