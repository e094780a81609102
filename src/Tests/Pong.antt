-- ===== src/Tests/Pong.antt =====
-- The theorem on Pong at a concrete game: an f64 is a whole number n, the byte n and seven zeros; the
-- numbers below 0.0 are the ones from 200 on.
use steam_lobby.Prelude.{
  ℕ, ◌+◌, ◌-◌, ◌*◌, ◌/◌, ◌≡◌, refl, arith, leb, ltb, if◌then◌else◌, List, [], ◌∷◌,
}
use steam_lobby.Pong.State.{PongGame, F64, full_state, restore, fnv1a64, left}
use steam_lobby.Pong.Play.{new_game, set_target, step}
use steam_lobby.Pong.Restore.{IsFaithful}
use steam_lobby.Pong.Game.{fresh, aimed, stepped, restore-Played}

abbrev first_byte : List ℕ → ℕ
first_byte [] = 0
first_byte (b ∷ _) = b

abbrev small : F64 ℕ
small = record {
  ratio = λ n d. n / d;
  add = λ a b. a + b;
  sub = λ a b. a - b;
  mul = λ a b. a * b;
  div = λ a b. a / b;
  neg = λ _. 201;
  abs = λ a. a;
  sqrt = λ a. a;
  min = λ a b. if leb a b then a else b;
  clamp = λ v lo hi. if ltb v lo then lo else if ltb hi v then hi else v;
  lt = λ a b. leb 200 a;
  le = leb;
  ceil_from_one = λ a. if leb a 1 then 1 else a;
  of_usize = λ n. n;
  to_le_bytes = λ v. v ∷ 0 ∷ 0 ∷ 0 ∷ 0 ∷ 0 ∷ 0 ∷ 0 ∷ [];
  from_le_bytes = first_byte;
}

small-IsFaithful : IsFaithful small
small-IsFaithful = record {
  width = λ v. refl;
  inverse = λ v. refl;
  minus_one = refl;
  clamped = λ v. ground arith;
}

-- the hash of no bytes, and of one
fnv_basis : fnv1a64 [] ≡ 0xcbf29ce484222325
unfolding fnv1a64
fnv_basis = refl

fnv_of_a : fnv1a64 (0x61 ∷ []) ≡ 0xaf63dc4c8601ec8c
unfolding fnv1a64
fnv_of_a = refl

abbrev game : PongGame ℕ
game = step small 33 (set_target small left 5 (new_game small))

restore-Played_example : restore small (full_state small game) ≡ game
restore-Played_example =
    restore-Played small small-IsFaithful game (stepped 33 (aimed left 5 fresh))
