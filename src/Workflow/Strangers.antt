-- ===== src/Workflow/Strangers.antt =====
-- What the accept of someone else does (`P2PMatchWorkflow`, lobby-server/src/temporal/workflows.rs).
use steam_lobby.Prelude.{
  Bool, true, false, ◌&&◌, ◌||◌, ◌==◌, ◌≡◌, arith, List, [], ◌∷◌, ◌++◌, length,
}
use steam_lobby.Core.Types.{PlayerId}
use steam_lobby.Workflow.{
  MatchArgs, Run, Stage, Event, react, react_all, settle, after_accepts, after_starts,
  after_reports, on_timer, has, match_choice, signal_start, signal_who_won, submit_demo, choice,
  start, who_won, demo, timer, awaiting_accept, closed,
}

-- the run has not come past the first phase, other than by its end
abbrev pub is_unstarted : Stage → Bool
is_unstarted awaiting_accept = true
is_unstarted closed = true
is_unstarted _ = false

any-append :
    (p : PlayerId) (xs : List PlayerId) (x : PlayerId) → has p (xs ++ x ∷ []) ≡ (has p xs || x == p)
any-append p [] x = ground arith
any-append p (y ∷ ys) x = ground (arith, any-append p ys x)

module _ (m : MatchArgs) (c : PlayerId) where
  both_accepted-has :
      (xs : List PlayerId)
      → (m.player_a == m.player_b) ≡ false
      → (c == m.player_a) ≡ false
      → (c == m.player_b) ≡ false
      → has c xs ≡ true
      → (length xs == 2 && has m.player_a xs && has m.player_b xs) ≡ false
  both_accepted-has [] ab ca cb h = ground arith
  both_accepted-has (x ∷ []) ab ca cb h = ground arith
  both_accepted-has (x ∷ y ∷ []) ab ca cb h = ground arith
  both_accepted-has (x ∷ y ∷ z ∷ xs) ab ca cb h = ground arith

  -- the stranger has accepted, and the match has not started
  abbrev pub IsBlocked : Run → Type 0
  IsBlocked r = (has c r.signals.accepts ≡ true) × (is_unstarted r.stage ≡ true)

  module _ (ab : (m.player_a == m.player_b) ≡ false) (ca : (c == m.player_a) ≡ false)
      (cb : (c == m.player_b) ≡ false) where
    settle-IsBlocked : (r : Run) → IsBlocked r → IsBlocked (settle m r)
    unfolding settle after_accepts after_starts after_reports
    settle-IsBlocked r (accepted, early) =
        ground (arith, both_accepted-has r.signals.accepts ab ca cb accepted)

    choice-IsBlocked :
        (user : PlayerId) (accept : Bool) (r : Run)
        → IsBlocked r
        → IsBlocked (record r { signals = match_choice user accept r.signals })
    choice-IsBlocked user true r (accepted, early) =
        (ground (arith, any-append c r.signals.accepts user), early)
    choice-IsBlocked user false r blocked = blocked

    react-IsBlocked : (e : Event) (r : Run) → IsBlocked r → IsBlocked (react m e r)
    unfolding react on_timer
    react-IsBlocked (choice user accept) r h =
        settle-IsBlocked (record r { signals = match_choice user accept r.signals })
          (choice-IsBlocked user accept r h)
    react-IsBlocked (start user) r h =
        settle-IsBlocked (record r { signals = signal_start user r.signals }) (ground arith)
    react-IsBlocked (who_won user w) r h =
        settle-IsBlocked (record r { signals = signal_who_won user w r.signals }) h
    react-IsBlocked (demo user hash) r h =
        settle-IsBlocked (record r { signals = submit_demo user hash r.signals }) h
    react-IsBlocked timer r h = ground arith

    IsBlocked-react_all : (es : List Event) (r : Run) → IsBlocked r → IsBlocked (react_all m es r)
    unfolding react_all
    IsBlocked-react_all [] r h = h
    IsBlocked-react_all (e ∷ es) r h = IsBlocked-react_all es (react m e r) (react-IsBlocked e r h)

-- Once anyone who is neither of the two players has accepted a match that has not started, it never
-- starts, whatever the players send: the run waits in its first phase or has ended.
pub react_all-IsBlocked :
    (m : MatchArgs) (c : PlayerId) (es : List Event) (r : Run)
    → (m.player_a == m.player_b) ≡ false
    → (c == m.player_a) ≡ false
    → (c == m.player_b) ≡ false
    → IsBlocked m c r
    → IsBlocked m c (react_all m es r)
react_all-IsBlocked m c es r ab ca cb h = IsBlocked-react_all m c ab ca cb es r h
