-- ===== src/Ranked/Finalize/Once.antt =====
-- What one call of `finalize_umvc3_in_tx` does, and what a second one does.
use steam_lobby.Prelude.{
  none, some, Bool, true, false, ◌≡◌, ◌⊎◌, inl, inr, refl, arith, ◌==◌, ◌&&◌, str_eq, not, is_none,
  if◌then◌else◌, Option-cases, Bool-cases,
}
use steam_lobby.Core.Types.{Token, MatchStatus, MatchInfo, match_status_eq}
use steam_lobby.Core.Error.{ok}
use steam_lobby.Store.Db.{Db}
use steam_lobby.Store.Numbers.{Numbers}
use steam_lobby.Store.Rows.{Umvc3Row}
use steam_lobby.Ranked.Types.{Umvc3Phase, Umvc3Verdict, RequeueDecision, StoredResolution, phase_eq}
use steam_lobby.Ranked.Finalize.{
  finalize_umvc3_in_tx, finalize_fresh, write_verdict, names_stranger, is_held, ended,
  made_terminal,
}
use steam_lobby.Ranked.Finalize.Writes.{
  verdict_reason, result_row, matches-write_verdict, umvc3-write_verdict, results-write_verdict,
  newly-write_verdict,
}
use steam_lobby.Ranked.Config.{ranked_mode}

module _ {R : Type 0} where
  -- what a second call is to answer
  abbrev pub as_stored : StoredResolution R → StoredResolution R
  as_stored r = record r { newly_finalized = false }

module _ {R : Type 0} where
  -- every check of the finalizer after the look for a stored result
  abbrev pub may_write : Token → MatchInfo → Umvc3Row → Umvc3Verdict → Db R → Bool
  may_write t m u v s =
      not (phase_eq u.phase Umvc3Phase.terminal)
      && not (match_status_eq m.status MatchStatus.resolved)
      && not (names_stranger m v)
      && not (m.player_a == m.player_b)
      && is_held t (s.player_state m.player_a)
      && is_held t (s.player_state m.player_b)

module _ {R : Type 0} (N : Numbers R) (m : MatchInfo) (u : Umvc3Row) (v : Umvc3Verdict)
    (q : RequeueDecision) where
  fresh-state :
      (t : Token) (s : Db R)
      → (finalize_fresh N t m u v q s).1
        ≡ (if may_write t m u v s then (write_verdict N m u v q s).1 else s)
  unfolding finalize_fresh
  fresh-state t s = ground arith

  fresh-answer :
      (t : Token) (s : Db R)
      → may_write t m u v s ≡ true
      → (finalize_fresh N t m u v q s).0 ≡ ok (write_verdict N m u v q s).0
  unfolding finalize_fresh
  fresh-answer t s = ground arith

  pub finalize-state :
      (t : Token) (s : Db R)
      → s.matches t ≡ some m
      → s.umvc3 t ≡ some u
      → (finalize_umvc3_in_tx N t v q s).1 ≡ (
          if is_none (s.results t) && str_eq m.game_mode ranked_mode && may_write t m u v s
          then (write_verdict N m u v q s).1
          else s)
  unfolding finalize_umvc3_in_tx
  finalize-state t s has_m has_u = ground (arith, fresh-state t s)

module _ {R : Type 0} (N : Numbers R) where
  -- With a stored result the answer is that result, and nothing is written.
  finalize-stored :
      (m : MatchInfo) (u : Umvc3Row) (v : Umvc3Verdict) (q : RequeueDecision) (s : Db R)
      (r : StoredResolution R) (t : Token)
      → s.matches t ≡ some m
      → s.umvc3 t ≡ some u
      → str_eq m.game_mode ranked_mode ≡ true
      → s.results t ≡ some (result_row r)
      → finalize_umvc3_in_tx N t v q s ≡ (ok (as_stored r), s)
  unfolding finalize_umvc3_in_tx
  finalize-stored m u v q s r t has_m has_u ranked has_r = ground arith

  finalize-writes :
      (m : MatchInfo) (u : Umvc3Row) (v : Umvc3Verdict) (q : RequeueDecision) (s : Db R)
      → s.matches m.match_token ≡ some m
      → s.umvc3 m.match_token ≡ some u
      → str_eq m.game_mode ranked_mode ≡ true
      → s.results m.match_token ≡ none
      → may_write m.match_token m u v s ≡ true
      → finalize_umvc3_in_tx N m.match_token v q s
        ≡ (ok (write_verdict N m u v q s).0, (write_verdict N m u v q s).1)
  unfolding finalize_umvc3_in_tx
  finalize-writes m u v q s has_m has_u ranked fresh fine =
      ground
        (arith, fresh-state N m u v q m.match_token s, fresh-answer N m u v q m.match_token s fine)

  -- A ranked match that may be finalized is finalized once: the first call stores the result, ends
  -- the match and makes its phase terminal; every later call, whatever its verdict and requeue
  -- decision, answers with the stored result and changes nothing.
  pub finalize_once :
      (m : MatchInfo) (u : Umvc3Row) (v : Umvc3Verdict) (q : RequeueDecision) (s : Db R)
      (v' : Umvc3Verdict) (q' : RequeueDecision)
      → s.matches m.match_token ≡ some m
      → s.umvc3 m.match_token ≡ some u
      → str_eq m.game_mode ranked_mode ≡ true
      → s.results m.match_token ≡ none
      → may_write m.match_token m u v s ≡ true
      → let first = finalize_umvc3_in_tx N m.match_token v q s in
        let r = (write_verdict N m u v q s).0 in
        (first.0 ≡ ok r)
        × (r.newly_finalized ≡ true)
        × (first.1.matches m.match_token ≡ some (ended s.now m))
        × (first.1.umvc3 m.match_token ≡ some (made_terminal (verdict_reason v) u))
        × (finalize_umvc3_in_tx N m.match_token v' q' first.1 ≡ (ok (as_stored r), first.1))
  finalize_once m u v q s v' q' has_m has_u ranked fresh fine =
      rw (finalize-writes m u v q s has_m has_u ranked fresh fine) (
        refl,
        newly-write_verdict N m u v q s,
        ended_row,
        terminal_row,
        finalize-stored _ _ v' q' _ (write_verdict N m u v q s).0 m.match_token ended_row
            terminal_row ranked (results-write_verdict N m u v q s),
      )
    where
      ended_row : (write_verdict N m u v q s).1.matches m.match_token ≡ some (ended s.now m)
      ended_row = rw (matches-write_verdict N m u v q s) (ground arith)

      terminal_row :
          (write_verdict N m u v q s).1.umvc3 m.match_token
          ≡ some (made_terminal (verdict_reason v) u)
      terminal_row = rw (umvc3-write_verdict N m u v q s) (ground arith)

module _ {R : Type 0} (N : Numbers R) (t : Token) (v : Umvc3Verdict) (q : RequeueDecision)
    (s : Db R) where
  finalize-no_match : s.matches t ≡ none → (finalize_umvc3_in_tx N t v q s).1 ≡ s
  unfolding finalize_umvc3_in_tx
  finalize-no_match absent = ground arith

  finalize-no_extension : s.umvc3 t ≡ none → (finalize_umvc3_in_tx N t v q s).1 ≡ s
  unfolding finalize_umvc3_in_tx
  finalize-no_extension absent = ground arith

  -- A call changes nothing, or writes the verdict on rows that are there and not terminal.
  pub finalize-cases :
      ((finalize_umvc3_in_tx N t v q s).1 ≡ s)
      ⊎ ((m : MatchInfo) × (u : Umvc3Row) × (s.matches t ≡ some m)
          × (s.umvc3 t ≡ some u)
          × (phase_eq u.phase Umvc3Phase.terminal ≡ false)
          × (names_stranger m v ≡ false)
          × ((finalize_umvc3_in_tx N t v q s).1 ≡ (write_verdict N m u v q s).1))
  finalize-cases = elim (Option-cases (s.matches t)) [
    | inl no_m ↦ inl (finalize-no_match no_m)
    | inr (m, has_m) ↦ elim (Option-cases (s.umvc3 t)) [
      | inl no_u ↦ inl (finalize-no_extension no_u)
      | inr (u, has_u) ↦
          elim (Bool-cases
            (is_none (s.results t) && str_eq m.game_mode ranked_mode && may_write t m u v s)) [
              | inr stays ↦ inl (rw (finalize-state N m u v q t s has_m has_u, stays) refl)
              | inl writes ↦ inr (
                m,
                u,
                has_m,
                has_u,
                ground arith,
                ground arith,
                rw (finalize-state N m u v q t s has_m has_u, writes) refl,
              )
            ]
    ]
  ]

  -- What holds before and after the writes of a verdict holds after every call.
  pub finalize-preserves :
      (P : Db R → Type 0)
      → P s
      → ((m : MatchInfo) (u : Umvc3Row)
          → s.umvc3 t ≡ some u
          → s.matches t ≡ some m
          → phase_eq u.phase Umvc3Phase.terminal ≡ false
          → P (write_verdict N m u v q s).1)
      → P (finalize_umvc3_in_tx N t v q s).1
  finalize-preserves P p f = elim finalize-cases [
    | inl same ↦ rw same p
    | inr (m, u, has_m, has_u, live, _, wrote) ↦ rw wrote (f m u has_u has_m live)
  ]
