-- ===== src/Rps/Rounds.antt =====
-- One round of rock, paper, scissors (`resolve_round`).
use mathlib.Core.Option
use steam_lobby.Prelude.{
  ℕ, ◌-◌, ◌<◌, ◌≡◌, arith, Bool, true, false, none, some, refl, if◌then◌else◌,
}
use steam_lobby.Rps.{resolve_round, round_winner}

pub data Hand : Type 0 where
  rock paper scissors : Hand

-- the rules of the game
abbrev pub beats : Hand → Hand → Bool
beats Hand.rock Hand.scissors = true
beats Hand.scissors Hand.paper = true
beats Hand.paper Hand.rock = true
beats _ _ = false

-- the byte of a hand in the protocol
abbrev pub byte : Hand → ℕ
byte Hand.rock = 0
byte Hand.paper = 1
byte Hand.scissors = 2

abbrev pub other : ℕ → ℕ
other w = 1 - w

-- On the bytes of two hands the winner of a round is the one whose hand beats the other by the rules,
-- and there is none at equal hands.
pub resolve_round-beats :
    (x y : Hand)
    → resolve_round (byte x) (byte y)
      ≡ (if beats x y then some 0 else if beats y x then some 1 else none)
resolve_round-beats Hand.rock Hand.rock = refl
resolve_round-beats Hand.rock Hand.paper = refl
resolve_round-beats Hand.rock Hand.scissors = refl
resolve_round-beats Hand.paper Hand.rock = refl
resolve_round-beats Hand.paper Hand.paper = refl
resolve_round-beats Hand.paper Hand.scissors = refl
resolve_round-beats Hand.scissors Hand.rock = refl
resolve_round-beats Hand.scissors Hand.paper = refl
resolve_round-beats Hand.scissors Hand.scissors = refl

pub round_winner_comm : (a b : ℕ) → round_winner b a ≡ Option.map other (round_winner a b)
round_winner_comm a b = ground arith

pub round_winner_side : (a b w : ℕ) → round_winner a b ≡ some w → w < 2
round_winner_side a b w h = ground arith
