-- ===== src/Rps/Time.antt =====
-- How long a game of rock, paper, scissors lasts (lobby-server/src/rps.rs).
use steam_lobby.Prelude.{
  ℕ, ◌+◌, ◌-◌, ◌*◌, ◌≤◌, ◌<◌, ◌≡◌, refl, arith, Bool, true, false, ◌&&◌, Option, none, some, leb,
  length, List, [], ◌∷◌, Bool-cases, inl, inr,
}
use steam_lobby.Core.Types.{PlayerId}
use steam_lobby.Rps.{
  Referee, RpsChoice, Input, is_still, begin, drain, lock_in, settle, settle_if_due, referee_turn,
  tick, run, spawned, has_left, round_timeout_ms, round_pause_ms, tick_ms, ending_of,
}
use steam_lobby.Rps.Invariant.{IsPlaying, tick-IsSound, drain-IsPlaying, spawned-IsPlaying}

-- the most that a round can take from its opening to the next one: both waits, each noticed one tick late
abbrev pub round_ms : ℕ
round_ms = round_timeout_ms + tick_ms + round_pause_ms + tick_ms

-- The time that a game has left after the time `last`.
abbrev cost_at : ℕ → ℕ → Option ℕ → Option ℕ → ℕ
cost_at last round (some deadline) _ = (deadline - last) + tick_ms + (14 - round) * round_ms
cost_at last round none (some begins) =
    (begins - last) + tick_ms + round_timeout_ms + tick_ms + (13 - round) * round_ms
cost_at last round none none = tick_ms + round_timeout_ms + tick_ms + 14 * round_ms

abbrev pub cost : ℕ → Referee → ℕ
cost last r = cost_at last r.round r.round_deadline r.next_begin_at

-- The turns come at least a tick apart.
abbrev pub is_spaced : ℕ → List Input → Bool
is_spaced last [] = true
is_spaced last (i ∷ is) = leb (last + tick_ms) i.now && is_spaced i.now is

module _ (a b : PlayerId) where
  lock_in-cost :
      (last : ℕ) (c : RpsChoice) (r : Referee) → cost last (lock_in a b c r) ≡ cost last r
  lock_in-cost last c r = ground arith

  drain-cost :
      (last : ℕ) (cs : List RpsChoice) (r : Referee) → cost last (drain a b cs r) ≡ cost last r
  unfolding drain
  drain-cost last [] r = refl
  drain-cost last (c ∷ cs) r = rw (drain-cost last cs (lock_in a b c r)) (lock_in-cost last c r)

  referee_turn-cost :
      (last now : ℕ) (r : Referee)
      → IsPlaying r
      → last + tick_ms ≤ now
      → is_still (referee_turn a b now r).ending ≡ true
      → cost now (referee_turn a b now r).referee + tick_ms ≤ cost last r
  unfolding referee_turn settle_if_due settle begin ending_of
  referee_turn-cost last now r p later goes_on = ground arith

  tick-cost :
      (last : ℕ) (i : Input) (r : Referee)
      → IsPlaying r
      → last + tick_ms ≤ i.now
      → is_still (tick a b i r).ending ≡ true
      → cost i.now (tick a b i r).referee + tick_ms ≤ cost last r
  unfolding tick
  tick-cost last i r p later goes_on = elim (Bool-cases (has_left i.stored)) [
    | inl gone ↦ ground (arith)
    | inr here ↦ ground (
      arith,
      referee_turn-cost last i.now (drain a b i.choices r) (drain-IsPlaying a b i.choices r p)
          later,
      drain-cost last i.choices r,
    )
  ]

  run-cost :
      (is : List Input) (last : ℕ) (r : Referee)
      → IsPlaying r
      → is_spaced last is ≡ true
      → is_still (run a b is r).ending ≡ true
      → length is * tick_ms < cost last r
  unfolding run
  run-cost [] last r p spaced goes_on = ground arith
  run-cost (i ∷ is) last r p spaced goes_on = elim (Bool-cases (is_still (tick a b i r).ending)) [
    | inl on ↦
        let rest =
          run-cost is i.now (tick a b i r).referee ((tick-IsSound a b i r p).goes_on on)
            (ground arith) (ground arith) in
        let spent = tick-cost last i r p (ground arith) on in omega (arith, rest, spent)
    | inr ended ↦ ground arith
  ]

  -- Where the turns come at least 500 ms apart, the game is over after 386 of them, whatever the
  -- players choose: the loop of the referee does not run for ever.
  pub run_ends :
      (is : List Input) (start : ℕ)
      → is_spaced start is ≡ true
      → 386 ≤ length is
      → is_still (run a b is spawned).ending ≡ false
  run_ends is start spaced long = elim (Bool-cases (is_still (run a b is spawned).ending)) [
    | inl goes_on ↦
        absurd (omega (arith, run-cost is start spawned spawned-IsPlaying spaced goes_on))
    | inr ended ↦ ended
  ]
