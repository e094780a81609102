-- ===== src/Workflow/Reports.antt =====
-- Which report of a player counts (`who_won`, lobby-server/src/temporal/workflows.rs).
use steam_lobby.Prelude.{
  true, false, not, ◌==◌, ◌≡◌, refl, sym, ap, ◌∙◌, arith, Option, none, some, if◌then◌else◌, List,
  [], ◌∷◌, ◌++◌, select, Bool-cases, inl, inr,
}
use steam_lobby.Core.Types.{PlayerId}
use steam_lobby.Workflow.{
  MatchArgs, P2PMatchWorkflow, Run, Event, react, react_all, settle, after_accepts, after_starts,
  after_reports, on_timer, begun, choice, start, who_won, demo, timer, winner_by, signal_who_won,
  match_choice, signal_start, submit_demo,
}

-- The last winner that a player has named.
abbrev pub last_report : PlayerId → List Event → Option PlayerId → Option PlayerId
last_report p [] named = named
last_report p (who_won user w ∷ es) named = last_report p es (if user == p then some w else named)
last_report p (choice _ _ ∷ es) named = last_report p es named
last_report p (start _ ∷ es) named = last_report p es named
last_report p (demo _ _ ∷ es) named = last_report p es named
last_report p (timer ∷ es) named = last_report p es named

winner_by-append :
    (p user w : PlayerId) (rs : List (PlayerId × PlayerId))
    → winner_by p (rs ++ (user, w) ∷ []) ≡ (if user == p then some w else winner_by p rs)
unfolding winner_by
winner_by-append p user w [] = ground arith
winner_by-append p user w (r ∷ rs) = ground (arith, winner_by-append p user w rs)

winner_by-select :
    (p user : PlayerId) (rs : List (PlayerId × PlayerId))
    → (user == p) ≡ false
    → winner_by p (select (λ r. not (r.0 == user)) rs) ≡ winner_by p rs
unfolding winner_by
winner_by-select p user [] apart = refl
winner_by-select p user (r ∷ rs) apart = ground (arith, winner_by-select p user rs)

winner_by-signal :
    (p user w : PlayerId) (s : P2PMatchWorkflow)
    → winner_by p (signal_who_won user w s).who_won
      ≡ (if user == p then some w else winner_by p s.who_won)
winner_by-signal p user w s = elim (Bool-cases (user == p)) [
  | inl it ↦ winner_by-append p user w (select (λ r. not (r.0 == user)) s.who_won) ∙ rw it refl
  | inr other ↦
      winner_by-append p user w (select (λ r. not (r.0 == user)) s.who_won)
      ∙ ap (λ x. if user == p then some w else x) (winner_by-select p user s.who_won other)
]

module _ (m : MatchArgs) where
  signals-settle : (r : Run) → (settle m r).signals ≡ r.signals
  unfolding settle after_accepts after_starts after_reports
  signals-settle r = ground arith

  signals-on_timer : (r : Run) → (on_timer m r.stage r).signals ≡ r.signals
  unfolding on_timer
  signals-on_timer r = ground arith

  -- what an event does to the reports
  winner_by-react :
      (p : PlayerId) (e : Event) (r : Run)
      → winner_by p (react m e r).signals.who_won
        ≡ last_report p (e ∷ []) (winner_by p r.signals.who_won)
  unfolding react
  winner_by-react p (choice user true) r =
      rw (signals-settle (record r { signals = match_choice user true r.signals })) (ground arith)
  winner_by-react p (choice user false) r =
      rw (signals-settle (record r { signals = match_choice user false r.signals })) refl
  winner_by-react p (start user) r =
      rw (signals-settle (record r { signals = signal_start user r.signals })) (ground arith)
  winner_by-react p (who_won user w) r =
      rw (signals-settle (record r { signals = signal_who_won user w r.signals }))
        (winner_by-signal p user w r.signals)
  winner_by-react p (demo user hash) r =
      rw (signals-settle (record r { signals = submit_demo user hash r.signals })) refl
  winner_by-react p timer r = rw (signals-on_timer r) refl

  last_report-cons :
      (p : PlayerId) (e : Event) (es : List Event) (named : Option PlayerId)
      → last_report p (e ∷ es) named ≡ last_report p es (last_report p (e ∷ []) named)
  last_report-cons p (choice user accept) es named = refl
  last_report-cons p (start user) es named = refl
  last_report-cons p (who_won user w) es named = refl
  last_report-cons p (demo user hash) es named = refl
  last_report-cons p timer es named = refl

  winner_by-react_all :
      (p : PlayerId) (es : List Event) (r : Run)
      → winner_by p (react_all m es r).signals.who_won
        ≡ last_report p es (winner_by p r.signals.who_won)
  unfolding react_all
  winner_by-react_all p [] r = refl
  winner_by-react_all p (e ∷ es) r =
      winner_by-react_all p es (react m e r)
      ∙ ap (last_report p es) (winner_by-react p e r)
      ∙ sym (last_report-cons p e es (winner_by p r.signals.who_won))

  -- The winner that the workflow counts for a player is the last one that the player has named,
  -- whatever else happened and whoever else reported.
  pub winner_by-last :
      (p : PlayerId) (es : List Event)
      → winner_by p (react_all m es begun).signals.who_won ≡ last_report p es none
  unfolding winner_by
  winner_by-last p es = winner_by-react_all p es begun
