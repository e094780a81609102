-- ===== src/Rps/Invariant.antt =====
-- What holds of the referee at every turn (lobby-server/src/rps.rs).
use mathlib.Core.Option
use steam_lobby.Prelude.{
  ℕ, ◌+◌, ◌<◌, ◌≤◌, ◌≡◌, arith, Bool, true, false, ◌&&◌, Option, none, some, is_some, is_none, ltb,
  leb, ap, ◌==◌, ◌||◌, refl, if◌then◌else◌, List, [], ◌∷◌, Bool-cases, inl, inr,
}
use steam_lobby.Core.Types.{PlayerId}
use steam_lobby.Rps.Rounds.{round_winner_side}
use steam_lobby.Rps.{
  no_choice, left_reporting, has_passed, ServerMessage, is_still, paused, Referee, RpsChoice, Turn,
  Input, Ending, still, won, panicked, begin, next_round, drain, lock_in, ending_of, settle,
  settle_if_due, referee_turn, tick, run, spawned, after_round, round_winner, has_left, first_to,
  max_rounds,
}

abbrev pub is_hand : Option ℕ → Bool
is_hand none = true
is_hand (some c) = ltb c 3

-- A game that goes on: nobody has three points, no more points than rounds were given, only
-- hands are locked in, and the round is open or over, never both.
pub record IsPlaying (r : Referee) : Type 0 where
  pub a_low : r.a_score < first_to
  pub b_low : r.b_score < first_to
  pub a_hand : is_hand r.a_choice ≡ true
  pub b_hand : is_hand r.b_choice ≡ true
  pub points : r.a_score + r.b_score ≤ (if is_some r.next_begin_at then r.round + 1 else r.round)
  pub rounds : (if is_some r.next_begin_at then r.round + 1 else r.round) < max_rounds
  pub begun : (r.round == 0 || is_some r.round_deadline || is_some r.next_begin_at) ≡ true
  pub apart : (is_some r.round_deadline && is_some r.next_begin_at) ≡ false

pub spawned-IsPlaying : IsPlaying spawned
spawned-IsPlaying = ground arith

module _ (a b : PlayerId) where
  lock_in-IsPlaying : (c : RpsChoice) (r : Referee) → IsPlaying r → IsPlaying (lock_in a b c r)
  lock_in-IsPlaying c r p = ground arith

  pub drain-IsPlaying :
      (cs : List RpsChoice) (r : Referee) → IsPlaying r → IsPlaying (drain a b cs r)
  unfolding drain
  drain-IsPlaying [] r p = p
  drain-IsPlaying (c ∷ cs) r p = drain-IsPlaying cs _ (lock_in-IsPlaying c r p)

  -- Who won has more points than the other.
  abbrev pub is_leader : PlayerId → Referee → Bool
  is_leader w r = (w == a && ltb r.b_score r.a_score) || (w == b && ltb r.a_score r.b_score)

  abbrev pub fits_score : Ending → Referee → Bool
  fits_score (won w) r = is_leader w r
  fits_score panicked r = false
  fits_score _ r = true

  -- A turn keeps the game in play or ends it, within the bounds and with a winner that leads.
  pub record IsSound (t : Turn) : Type 0 where
    pub goes_on : is_still t.ending ≡ true → IsPlaying t.referee
    pub a_most : t.referee.a_score ≤ first_to
    pub b_most : t.referee.b_score ≤ first_to
    pub last_round : t.referee.round < max_rounds
    pub fits : fits_score t.ending t.referee ≡ true

  -- the part of `settle` after the winner of the round is known
  abbrev given : ℕ → Option ℕ → Referee → List ServerMessage → Turn
  given now winner r sent =
      let r' = after_round winner r in
      let ending = ending_of a b winner r' in
      record { referee = paused ending now r'; sent = sent; ending = ending }

  given-IsSound :
      (now : ℕ) (winner : Option ℕ) (r : Referee) (sent : List ServerMessage)
      → ((w : ℕ) → winner ≡ some w → w < 2)
      → IsPlaying r
      → is_some r.round_deadline ≡ true
      → IsSound (given now winner r sent)
  unfolding ending_of
  given-IsSound now none r sent two p opened = record {
    goes_on = λ h. ground arith;
    a_most = ground arith;
    b_most = ground arith;
    last_round = ground arith;
    fits = ground arith;
  }
  given-IsSound now (some w) r sent two p opened = elim (Bool-cases (w == 0)) [
    | inl first ↦ record {
      goes_on = λ h. ground arith;
      a_most = ground arith;
      b_most = ground arith;
      last_round = ground arith;
      fits = ground arith;
    }
    | inr second ↦
        let one = two w refl in
        record {
          goes_on = λ h. ground arith;
          a_most = ground arith;
          b_most = ground arith;
          last_round = ground arith;
          fits = ground arith;
        }
  ]

  settle-IsSound :
      (now : ℕ) (r : Referee)
      → IsPlaying r
      → is_some r.round_deadline ≡ true
      → IsSound (settle a b now r)
  unfolding settle
  settle-IsSound now r p opened =
      given-IsSound now (round_winner x y) r _ (round_winner_side x y) p opened
    where
      x : ℕ
      x = Option.get_or r.a_choice no_choice

      y : ℕ
      y = Option.get_or r.b_choice no_choice

  unmoved-IsSound :
      (r : Referee) (sent : List ServerMessage) (ending : Ending)
      → IsPlaying r
      → fits_score ending r ≡ true
      → IsSound (record { referee = r; sent = sent; ending = ending })
  unmoved-IsSound r sent ending p fits = record {
    goes_on = λ _. p;
    a_most = omega (arith, p.a_low);
    b_most = omega (arith, p.b_low);
    last_round = ground arith;
    fits = fits;
  }

  settle_if_due-IsSound :
      (now : ℕ) (r : Referee) (deadline : Option ℕ)
      → IsPlaying r
      → r.round_deadline ≡ deadline
      → IsSound (settle_if_due a b now r deadline)
  unfolding settle_if_due
  settle_if_due-IsSound now r none p at = unmoved-IsSound r [] still p refl
  settle_if_due-IsSound now r (some d) p at =
      elim (Bool-cases ((is_some r.a_choice && is_some r.b_choice) || leb d now)) [
        | inl due ↦ rw due (settle-IsSound now r p (ap is_some at))
        | inr early ↦ rw early (unmoved-IsSound r [] still p refl)
      ]

  begin-IsSound :
      (now : ℕ) (r : Referee) → IsPlaying r → is_none r.next_begin_at ≡ true → IsSound (begin now r)
  unfolding begin
  begin-IsSound now r p calm = record {
    goes_on = λ _. ground arith;
    a_most = ground arith;
    b_most = ground arith;
    last_round = ground arith;
    fits = refl;
  }

  begin-next_round :
      (now : ℕ) (r : Referee)
      → IsPlaying r
      → has_passed r.next_begin_at now ≡ true
      → IsSound (begin now (next_round r))
  unfolding begin
  begin-next_round now r p passed = record {
    goes_on = λ _. ground arith;
    a_most = ground arith;
    b_most = ground arith;
    last_round = ground arith;
    fits = refl;
  }

  referee_turn-IsSound : (now : ℕ) (r : Referee) → IsPlaying r → IsSound (referee_turn a b now r)
  unfolding referee_turn
  referee_turn-IsSound now r p =
      elim (Bool-cases (r.round == 0 && is_none r.round_deadline && is_none r.next_begin_at)) [
        | inl fresh ↦ rw fresh (begin-IsSound now r p (ground arith))
        | inr started ↦ rw started (elim (Bool-cases (has_passed r.next_begin_at now)) [
          | inl passed ↦ rw passed (begin-next_round now r p passed)
          | inr early ↦ rw early (settle_if_due-IsSound now r r.round_deadline p refl)
        ])
      ]

  pub tick-IsSound : (i : Input) (r : Referee) → IsPlaying r → IsSound (tick a b i r)
  unfolding tick
  tick-IsSound i r p = elim (Bool-cases (has_left i.stored)) [
    | inl gone ↦ rw gone (unmoved-IsSound r [] left_reporting p refl)
    | inr here ↦ rw here (referee_turn-IsSound i.now _ (drain-IsPlaying i.choices r p))
  ]

  IsSound-later : (is : List Input) (r : Referee) → IsPlaying r → IsSound (run a b is r)
  unfolding run
  IsSound-later [] r p = unmoved-IsSound r [] still p refl
  IsSound-later (i ∷ is) r p =
      let sound = tick-IsSound i r p in
      elim (Bool-cases (is_still (tick a b i r).ending)) [
        | inl goes_on ↦
            let rest = IsSound-later is (tick a b i r).referee (sound.goes_on goes_on) in
            rw goes_on (record {
              goes_on = rest.goes_on;
              a_most = rest.a_most;
              b_most = rest.b_most;
              last_round = rest.last_round;
              fits = rest.fits;
            })
        | inr ended ↦ rw ended sound
      ]

  -- Whatever choices arrive and whenever the turns come, no player has more than three points, no
  -- more than fifteen rounds are opened, the declared winner is a player that has more points than
  -- the other, and the `expect` on the winner of the last round never fails.
  pub run-IsSound : (is : List Input) → IsSound (run a b is spawned)
  run-IsSound is = IsSound-later is spawned spawned-IsPlaying
