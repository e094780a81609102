-- ===== src/Pong/Play.antt =====
-- The moves of the game (lobby-core/src/pong.rs).
use steam_lobby.Prelude.{
  ℕ, zero, suc, ◌+◌, ◌%◌, ◌^◌, Bool, true, false, ◌&&◌, Option, none, some, if◌then◌else◌,
}
use steam_lobby.Pong.State.{PongGame, PongSide, F64, left, right}

module _ {R : Type 0} (F : F64 R) where
  abbrev pub zero_f : R
  zero_f = F.ratio 0 1

  abbrev pub one_f : R
  one_f = F.ratio 1 1

  abbrev pub ball_speed : R
  ball_speed = F.ratio 9 10

  abbrev pub centre : R
  centre = F.ratio 1 2

  unfoldable pub new_game : PongGame R
  new_game = record {
    left_y = centre;
    right_y = centre;
    ball_x = centre;
    ball_y = centre;
    ball_vx = ball_speed;
    ball_vy = zero_f;
    speed = ball_speed;
    left_score = 0;
    right_score = 0;
    left_target = none;
    right_target = none;
  }

  unfoldable pub set_target : PongSide → R → PongGame R → PongGame R
  set_target left target g = record g { left_target = some (F.clamp target zero_f one_f) }
  set_target right target g = record g { right_target = some (F.clamp target zero_f one_f) }

  -- toward the target by at most PADDLE_SPEED * dt
  abbrev toward : R → R → Option R → R
  toward dt y none = y
  toward dt y (some t) =
      let max_move = F.mul (F.ratio 8 10) dt in
      F.add y (F.clamp (F.sub t y) (F.neg max_move) max_move)

  abbrev moved : R → R → Option R → R
  moved dt y target = F.clamp (toward dt y target) (F.ratio 8 100) (F.ratio 92 100)

  unfoldable pub move_paddle : PongSide → R → PongGame R → PongGame R
  move_paddle left dt g = record g { left_y = moved dt g.left_y g.left_target }
  move_paddle right dt g = record g { right_y = moved dt g.right_y g.right_target }

  unfoldable pub step_ball : R → PongGame R → PongGame R
  step_ball dt g =
      let len = F.sqrt (F.add (F.mul g.ball_vx g.ball_vx) (F.mul g.ball_vy g.ball_vy)) in
      if F.lt zero_f len
      then record g {
        ball_x = F.add g.ball_x (F.mul (F.mul (F.div g.ball_vx len) g.speed) dt);
        ball_y = F.add g.ball_y (F.mul (F.mul (F.div g.ball_vy len) g.speed) dt);
      }
      else g

  unfoldable pub bounce_walls : PongGame R → PongGame R
  bounce_walls g =
      if F.lt g.ball_y zero_f
      then record g { ball_y = F.neg g.ball_y; ball_vy = F.neg g.ball_vy }
      else if F.lt one_f g.ball_y
      then record g { ball_y = F.sub (F.ratio 2 1) g.ball_y; ball_vy = F.neg g.ball_vy }
      else g

  -- the ball is at a paddle at (x, y)
  abbrev is_at : R → R → PongGame R → Bool
  is_at x y g =
      F.lt (F.abs (F.sub g.ball_x x)) (F.ratio 2 100)
      && F.le (F.abs (F.sub g.ball_y y)) (F.ratio 8 100)

  unfoldable pub hit_paddle : PongGame R → Bool × PongGame R
  hit_paddle g =
      if F.lt g.ball_vx zero_f && is_at (F.ratio 3 100) g.left_y g
      then (
        true,
        record g {
          ball_vx = F.abs g.ball_vx;
          ball_vy = F.mul (F.sub g.ball_y g.left_y) (F.ratio 3 1);
        },
      )
      else if F.lt zero_f g.ball_vx && is_at (F.ratio 97 100) g.right_y g
      then (
        true,
        record g {
          ball_vx = F.neg (F.abs g.ball_vx);
          ball_vy = F.mul (F.sub g.ball_y g.right_y) (F.ratio 3 1);
        },
      )
      else (false, g)

  abbrev sped_up : Bool × PongGame R → PongGame R
  sped_up (true, g) = record g { speed = F.min (F.mul g.speed (F.ratio 106 100)) (F.ratio 6 1) }
  sped_up (false, g) = g

  unfoldable pub substep : R → PongGame R → PongGame R
  unfolding step_ball bounce_walls hit_paddle
  substep dt g = sped_up (hit_paddle (bounce_walls (step_ball dt g)))

  unfoldable pub substeps : ℕ → R → PongGame R → PongGame R
  substeps zero dt g = g
  substeps (suc n) dt g = substeps n dt (substep dt g)

  -- the scorer's opponent gets the ball
  unfoldable pub serve : PongSide → PongGame R → PongGame R
  serve scorer g = record g {
    ball_x = centre;
    ball_y = centre;
    ball_vx = elim scorer [ left ↦ ball_speed | right ↦ F.neg ball_speed ];
    ball_vy = zero_f;
    speed = ball_speed;
  }

  unfoldable pub score : PongGame R → PongGame R
  unfolding serve
  score g =
      if F.lt g.ball_x zero_f
      then serve right (record g { right_score = (g.right_score + 1) % 2 ^ 8 })
      else if F.lt one_f g.ball_x
      then serve left (record g { left_score = (g.left_score + 1) % 2 ^ 8 })
      else g

  -- the ball in sub-steps, and the point where it has left the field
  unfoldable pub move_ball : R → PongGame R → PongGame R
  unfolding substeps score
  move_ball dt g =
      let n = F.ceil_from_one (F.div (F.mul g.speed dt) (F.ratio 5 1000)) in
      score (substeps n (F.div dt (F.of_usize n)) g)

  unfoldable pub step : R → PongGame R → PongGame R
  unfolding move_paddle move_ball
  step dt g = move_ball dt (move_paddle right dt (move_paddle left dt g))
