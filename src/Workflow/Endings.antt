-- ===== src/Workflow/Endings.antt =====
-- The return of a run of the workflow, and its timers (lobby-server/src/temporal/workflows.rs).
use steam_lobby.Prelude.{Bool, true, false, ◌≡◌, refl, ap, ◌∙◌, arith, List, [], ◌∷◌, ◌++◌}
use steam_lobby.Workflow.{
  MatchArgs, Run, Stage, Event, Activity, react, react_all, settle, on_timer, timer, handle_decline,
  resolve_start_forfeit, resolve_dispute, finish_match, closed,
}

-- the activities that end a match
abbrev pub is_ending : Activity → Bool
is_ending (handle_decline _) = true
is_ending (resolve_start_forfeit _) = true
is_ending resolve_dispute = true
is_ending (finish_match _ _) = true
is_ending _ = false

abbrev pub is_closed : Stage → Bool
is_closed closed = true
is_closed _ = false

module _ (m : MatchArgs) where
  -- What a run has returned with stays as it is.
  react-closed : (e : Event) (r : Run) → is_closed r.stage ≡ true → (react m e r).sent ≡ r.sent
  unfolding react settle on_timer
  react-closed e r h = ground arith

  timer-closes : (r : Run) → is_closed (react m timer r).stage ≡ true
  unfolding react on_timer
  timer-closes r = ground arith

  react-stays_closed :
      (e : Event) (r : Run) → is_closed r.stage ≡ true → is_closed (react m e r).stage ≡ true
  unfolding react settle on_timer
  react-stays_closed e r h = ground arith

  react_all-stays_closed :
      (es : List Event) (r : Run)
      → is_closed r.stage ≡ true
      → is_closed (react_all m es r).stage ≡ true
  unfolding react_all
  react_all-stays_closed [] r h = h
  react_all-stays_closed (e ∷ es) r h =
      react_all-stays_closed es (react m e r) (react-stays_closed e r h)

  react_all-timer :
      (before later : List Event) (r : Run)
      → is_closed (react_all m (before ++ timer ∷ later) r).stage ≡ true
  unfolding react_all
  react_all-timer [] later r = react_all-stays_closed later (react m timer r) (timer-closes r)
  react_all-timer (e ∷ before) later r = react_all-timer before later (react m e r)

  -- What a run has returned with stays as it is, whatever comes.
  pub react_all-closed :
      (es : List Event) (r : Run) → is_closed r.stage ≡ true → (react_all m es r).sent ≡ r.sent
  unfolding react_all
  react_all-closed [] r h = refl
  react_all-closed (e ∷ es) r h =
      react_all-closed es (react m e r) (react-stays_closed e r h) ∙ react-closed e r h

  react_all-append :
      (es fs : List Event) (r : Run) → react_all m (es ++ fs) r ≡ react_all m fs (react_all m es r)
  unfolding react_all
  react_all-append [] fs r = refl
  react_all-append (e ∷ es) fs r = react_all-append es fs (react m e r)

  -- What comes after a timer adds nothing to what the timer had sent.
  pub sent-timer :
      (before later : List Event) (r : Run)
      → (react_all m (before ++ timer ∷ later) r).sent
        ≡ (on_timer m (react_all m before r).stage (react_all m before r)).sent
  unfolding react_all react
  sent-timer before later r =
      let waiting = react_all m before r in
      ap (λ x. x.sent) (react_all-append before (timer ∷ later) r)
      ∙ react_all-closed later (react m timer waiting) (timer-closes waiting)
