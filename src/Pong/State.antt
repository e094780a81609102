-- ===== src/Pong/State.antt =====
-- The game, its serialised state and its checksum (lobby-core/src/pong.rs).
use Prim.Native.Nat.{bit_xor}
use mathlib.Core.Option
use steam_lobby.Prelude.{
  ℕ, zero, suc, ◌*◌, ◌%◌, ◌^◌, Bool, Option, none, some, leb, if◌then◌else◌, List, [], ◌∷◌, ◌++◌,
}

pub data PongSide : Type 0 where
  left right : PongSide

-- f64, as far as the game uses it
pub record F64 (R : Type 0) : Type 0 where
  -- the literal n / d
  pub ratio : (n d : ℕ) → R
  pub add : R → R → R
  pub sub : R → R → R
  pub mul : R → R → R
  pub div : R → R → R
  pub neg : R → R
  pub abs : R → R
  pub sqrt : R → R
  pub min : R → R → R
  pub clamp : R → R → R → R
  pub lt : R → R → Bool
  pub le : R → R → Bool
  -- x.ceil().max(1.0) as usize, and the f64 of a usize
  pub ceil_from_one : R → ℕ
  pub of_usize : ℕ → R
  pub to_le_bytes : R → List ℕ
  pub from_le_bytes : List ℕ → R

pub record PongGame (R : Type 0) : Type 0 where
  pub left_y : R
  pub right_y : R
  pub ball_x : R
  pub ball_y : R
  pub ball_vx : R
  pub ball_vy : R
  pub speed : R
  pub left_score : ℕ
  pub right_score : ℕ
  pub left_target : Option R
  pub right_target : Option R

abbrev pub win_score : ℕ
win_score = 3

unfoldable pub winner : {R : Type 0} → PongGame R → Option PongSide
winner g =
    if leb win_score g.left_score
    then some left
    else if leb win_score g.right_score
    then some right
    else none

-- the first n of a list, and the rest
abbrev pub take : {A : Type 0} → ℕ → List A → List A
take zero xs = []
take (suc n) [] = []
take (suc n) (x ∷ xs) = x ∷ take n xs

abbrev pub drop : {A : Type 0} → ℕ → List A → List A
drop zero xs = xs
drop (suc n) [] = []
drop (suc n) (x ∷ xs) = drop n xs

-- a byte of the array
abbrev pub byte_at : List ℕ → ℕ
byte_at [] = 0
byte_at (b ∷ _) = b

-- FNV-1a 64
unfoldable pub fnv_from : ℕ → List ℕ → ℕ
fnv_from h [] = h
fnv_from h (b ∷ bs) = fnv_from ((bit_xor h b * 0x100000001b3) % 2 ^ 64) bs

unfoldable pub fnv1a64 : List ℕ → ℕ
unfolding fnv_from
fnv1a64 bytes = fnv_from 0xcbf29ce484222325 bytes

module _ {R : Type 0} (F : F64 R) where
  -- `-1.0` stands for no target
  abbrev pub no_target : R
  no_target = F.neg (F.ratio 1 1)

  -- the nine numbers, in their order
  abbrev pub numbers : PongGame R → List R
  numbers g =
      g.left_y
      ∷ g.right_y
      ∷ g.ball_x
      ∷ g.ball_y
      ∷ g.ball_vx
      ∷ g.ball_vy
      ∷ g.speed
      ∷ Option.get_or g.left_target no_target
      ∷ Option.get_or g.right_target no_target
      ∷ []

  abbrev pub bytes_of : List R → List ℕ → List ℕ
  bytes_of [] rest = rest
  bytes_of (v ∷ vs) rest = F.to_le_bytes v ++ bytes_of vs rest

  unfoldable pub full_state : PongGame R → List ℕ
  full_state g = bytes_of (numbers g) (g.left_score ∷ g.right_score ∷ [])

  unfoldable pub checksum : PongGame R → ℕ
  unfolding full_state fnv1a64
  checksum g = fnv1a64 (full_state g)

  -- chunks_exact(8): the n-th number
  abbrev pub value_at : ℕ → List ℕ → R
  value_at n bytes = F.from_le_bytes (take 8 (drop (8 * n) bytes))

  abbrev pub target_of : R → Option R
  target_of v = if F.lt v (F.ratio 0 1) then none else some v

  unfoldable pub restore : List ℕ → PongGame R
  restore bytes = record {
    left_y = value_at 0 bytes;
    right_y = value_at 1 bytes;
    ball_x = value_at 2 bytes;
    ball_y = value_at 3 bytes;
    ball_vx = value_at 4 bytes;
    ball_vy = value_at 5 bytes;
    speed = value_at 6 bytes;
    left_target = target_of (value_at 7 bytes);
    right_target = target_of (value_at 8 bytes);
    left_score = byte_at (drop 72 bytes);
    right_score = byte_at (drop 73 bytes);
  }
