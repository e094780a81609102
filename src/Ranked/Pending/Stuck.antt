-- ===== src/Ranked/Pending/Stuck.antt =====
-- A report that the database refuses (`apply_match_command` and the drains, lobby-server/src/commands.rs).
use steam_lobby.Prelude.{ℕ, suc, ◌≤◌, String, Option, some, true, ◌≡◌, refl, arith, select}
use steam_lobby.Core.Types.{Token, MatchInfo}
use steam_lobby.Core.Error.{LobbyError, err}
use steam_lobby.Core.Match.{is_participant}
use steam_lobby.Store.Db.{Db}
use steam_lobby.Store.Numbers.{Numbers}
use steam_lobby.Store.Rows.{Umvc3Row, InboxRow}
use steam_lobby.Ranked.Types.{RankedCommand, RelativeOutcome}
use steam_lobby.Ranked.Config.{Config}
use steam_lobby.Ranked.Apply.{apply_match_command, apply_report}
use steam_lobby.Ranked.Drain.{
  first_by, is_waiting, is_rated, apply_unless_terminal, drain_one_match_command, drain_loop,
  drain_match, expire, pending_count,
}
use steam_lobby.Ranked.Pending.{
  match_owner, first_owner, drain_one, drain_pending_loop, drain_pending,
}

abbrev pub failed : LobbyError
failed = LobbyError.database "ranked command application failed"

module _ {R : Type 0} (N : Numbers R) (c : Config) (t : Token) (s : Db R) where
  stuck_one :
      (m : MatchInfo) (u : Umvc3Row) (row : InboxRow) (token : Token) (outcome : RelativeOutcome)
      (score checksum : Option String) (frame : ℕ)
      → s.matches t ≡ some m
      → s.umvc3 t ≡ some u
      → is_participant m row.user_id ≡ true
      → is_rated u.phase ≡ true
      → first_by (λ r. r.match_sequence) (select (is_waiting t) s.inbox) ≡ some row
      → row.payload ≡ RankedCommand.report token outcome score checksum (some frame)
      → 9_223_372_036_854_775_808 ≤ frame
      → drain_one_match_command N c t s ≡ (err failed, s)
  unfolding drain_one_match_command apply_unless_terminal apply_match_command apply_report
  stuck_one m u row token outcome score checksum frame has_m has_u plays live next says far =
      ground arith

  stuck_loop :
      (fuel : ℕ)
      → drain_one_match_command N c t s ≡ (err failed, s)
      → drain_loop N c (suc fuel) t s ≡ (err failed, s)
  unfolding drain_loop
  stuck_loop fuel stuck = rw stuck refl

  stuck_match :
      drain_one_match_command N c t s ≡ (err failed, s) → drain_match N c t s ≡ (err failed, s)
  unfolding drain_match
  stuck_match stuck = rw (stuck_loop (pending_count t s) stuck) refl

  stuck_expire :
      (version : ℕ)
      → drain_one_match_command N c t s ≡ (err failed, s)
      → expire N c t version s ≡ (err failed, s)
  unfolding expire
  stuck_expire version stuck = rw (stuck_loop (pending_count t s) stuck) refl

  stuck_pending :
      drain_one_match_command N c t s ≡ (err failed, s)
      → first_owner (match_owner s) s.inbox ≡ some t
      → drain_pending N c s ≡ (err failed, s)
  unfolding drain_pending drain_pending_loop drain_one
  stuck_pending stuck first = rw (first, stuck) refl

  -- A player's report for a match in Playing or AwaitingReport, with a frame of 2^63 or more, which
  -- is the next pending command of its match, is left undecided: draining the match and expiring its
  -- phase, whatever the version, fail with a database error and change nothing, so that they fail
  -- again whenever they are tried on what is there; and where the match is the first in the order
  -- of tokens that has a pending command, draining all streams fails in the same way.
  pub reports_stuck :
      (m : MatchInfo) (u : Umvc3Row) (row : InboxRow) (token : Token) (outcome : RelativeOutcome)
      (score checksum : Option String) (frame : ℕ)
      → s.matches t ≡ some m
      → s.umvc3 t ≡ some u
      → is_participant m row.user_id ≡ true
      → is_rated u.phase ≡ true
      → first_by (λ r. r.match_sequence) (select (is_waiting t) s.inbox) ≡ some row
      → row.payload ≡ RankedCommand.report token outcome score checksum (some frame)
      → 9_223_372_036_854_775_808 ≤ frame
      → (drain_match N c t s ≡ (err failed, s))
        × ((version : ℕ) → expire N c t version s ≡ (err failed, s))
        × (first_owner (match_owner s) s.inbox ≡ some t → drain_pending N c s ≡ (err failed, s))
  reports_stuck m u row token outcome score checksum frame has_m has_u plays live next says far =
      let stuck =
        stuck_one m u row token outcome score checksum frame has_m has_u plays live next says far in
      (stuck_match stuck, λ version. stuck_expire version stuck, stuck_pending stuck)
