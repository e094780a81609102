-- ===== src/Ranked/Finalize/Writes.antt =====
-- What `write_verdict` leaves in each table (lobby-server/src/db/matches.rs).
use mathlib.Core.Option
use steam_lobby.Prelude.{Option, none, some, Bool, true, false, ◌≡◌, arith, ◌==◌, modify}
use steam_lobby.Core.Types.{Token, PlayerId, MatchInfo, PlayerState}
use steam_lobby.Store.Db.{Db}
use steam_lobby.Store.Numbers.{Numbers}
use steam_lobby.Store.Rows.{Umvc3Row, ResultRow, PlayerStateRow}
use steam_lobby.Ranked.Types.{Umvc3Verdict, RequeueDecision, StoredResolution, TerminalReason}
use steam_lobby.Ranked.Finalize.{
  write_verdict, rate, ended, made_terminal, is_held, release_to, released,
}

abbrev pub verdict_reason : Umvc3Verdict → TerminalReason
verdict_reason Umvc3Verdict.disputed = TerminalReason.disputed
verdict_reason _ = TerminalReason.resolved

abbrev pub result_row : {R : Type 0} → StoredResolution R → ResultRow R
result_row r = record {
  outcome = r.outcome;
  mu_change_a = r.mu_change_a;
  mu_change_b = r.mu_change_b;
}

module _ {R : Type 0} (N : Numbers R) (m : MatchInfo) where
  rate-frame :
      (o : Option _) (b : Bool) (s : Db R)
      → let after = (rate N m o b s).2 in
        (after.matches ≡ s.matches)
        × (after.umvc3 ≡ s.umvc3)
        × (after.results ≡ s.results)
        × (after.player_state ≡ s.player_state)
        × (after.inbox ≡ s.inbox)
        × (after.now ≡ s.now)
  unfolding rate
  rate-frame o b s = ground arith

-- the state of a player and the match that holds it
abbrev pub standing : PlayerStateRow → PlayerState × Option Token
standing p = (p.state, p.active_match_token)

abbrev pub stands : {R : Type 0} → Db R → PlayerId → Option (PlayerState × Option Token)
stands s id = Option.map standing (s.player_state id)

module _ {R : Type 0} (N : Numbers R) (m : MatchInfo) (u : Umvc3Row) (v : Umvc3Verdict)
    (q : RequeueDecision) (s : Db R) where
  abbrev after : Db R
  after = (write_verdict N m u v q s).1

  pub inbox-write_verdict : after.inbox ≡ s.inbox
  unfolding write_verdict
  inbox-write_verdict = ground (arith, rate-frame N m)

  pub now-write_verdict : after.now ≡ s.now
  unfolding write_verdict
  now-write_verdict = ground (arith, rate-frame N m)

  pub matches-write_verdict : after.matches ≡ modify m.match_token (ended s.now) s.matches
  unfolding write_verdict
  matches-write_verdict = ground (arith, rate-frame N m)

  pub umvc3-write_verdict :
      after.umvc3 ≡ modify m.match_token (made_terminal (verdict_reason v)) s.umvc3
  unfolding write_verdict
  umvc3-write_verdict = ground (arith, rate-frame N m)

  pub results-write_verdict :
      after.results m.match_token ≡ some (result_row (write_verdict N m u v q s).0)
  unfolding write_verdict
  results-write_verdict = ground (arith, rate-frame N m)

  pub newly-write_verdict : (write_verdict N m u v q s).0.newly_finalized ≡ true
  unfolding write_verdict
  newly-write_verdict = ground (arith, rate-frame N m)

  -- the row of a player of the match afterwards
  player_a-write_verdict :
      (m.player_a == m.player_b) ≡ false
      → after.player_state m.player_a
        ≡ Option.map (released m.match_token (release_to q.player_a)) (s.player_state m.player_a)
  unfolding write_verdict
  player_a-write_verdict apart = ground (arith, rate-frame N m)

  player_b-write_verdict :
      (m.player_a == m.player_b) ≡ false
      → after.player_state m.player_b
        ≡ Option.map (released m.match_token (release_to q.player_b)) (s.player_state m.player_b)
  unfolding write_verdict
  player_b-write_verdict apart = ground (arith, rate-frame N m)

  -- Once a verdict is written, the two different players that the match held are free: their rows
  -- name no match, and they are queueing or in the menus as the decision to requeue says.
  pub write_verdict-frees_players :
      (m.player_a == m.player_b) ≡ false
      → is_held m.match_token (s.player_state m.player_a) ≡ true
      → is_held m.match_token (s.player_state m.player_b) ≡ true
      → (stands after m.player_a ≡ some (release_to q.player_a, none))
        × (stands after m.player_b ≡ some (release_to q.player_b, none))
  write_verdict-frees_players apart held_a held_b = (
    rw (player_a-write_verdict apart) (freed _ _ held_a),
    rw (player_b-write_verdict apart) (freed _ _ held_b),
  )
    where
      freed :
          (state : PlayerState) (row : Option PlayerStateRow)
          → is_held m.match_token row ≡ true
          → Option.map standing (Option.map (released m.match_token state) row) ≡ some (state, none)
      freed state row held = ground arith
