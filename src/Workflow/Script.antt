-- ===== src/Workflow/Script.antt =====
-- Which activities a run of the workflow sends, in which order (lobby-server/src/temporal/workflows.rs).
use steam_lobby.Prelude.{true, ◌≡◌, refl, List, [], ◌∷◌, ◌++◌, ◌==◌, length, Bool-cases, inl, inr}
use steam_lobby.Workflow.{
  match_choice, signal_start, signal_who_won, submit_demo, both_accepted, both_started, agreed,
  at_accept, at_start, at_report, MatchArgs, P2PMatchWorkflow, Run, Stage, Event, Activity, react,
  react_all, settle, after_accepts, after_starts, after_reports, on_timer, begun, choice, start,
  who_won, demo, timer, verify_match, accept_match, mark_accepts, mark_connected, handle_decline,
  resolve_start_forfeit, awaiting_accept, awaiting_start, awaiting_report, closed,
}
use steam_lobby.Workflow.Endings.{is_ending}

abbrev pub opened : List Activity
opened = verify_match ∷ []

module _ (m : MatchArgs) where
  abbrev pub accepted : List Activity
  accepted = opened ++ accept_match m.player_a ∷ accept_match m.player_b ∷ mark_accepts ∷ []

  abbrev pub connected : List Activity
  connected = accepted ++ mark_connected m.player_a ∷ mark_connected m.player_b ∷ []

  -- what comes before an ending
  abbrev pub before : Activity → List Activity
  before (handle_decline _) = opened
  before (resolve_start_forfeit _) = accepted
  before _ = connected

  -- The activities of a run in each stage: a closed run has sent one ending after all that must
  -- come before it.
  abbrev pub IsScript : Stage → List Activity → Type 0
  IsScript awaiting_accept sent = sent ≡ opened
  IsScript awaiting_start sent = sent ≡ accepted
  IsScript awaiting_report sent = sent ≡ connected
  IsScript closed sent = (x : Activity) × (is_ending x ≡ true) × (sent ≡ before x ++ x ∷ [])

  abbrev Scripted : Run → Type 0
  Scripted r = IsScript r.stage r.sent

  abbrev in_stage : Stage → P2PMatchWorkflow → List Activity → Run
  in_stage stage signals sent = record { stage = stage; signals = signals; sent = sent }

  ends_with :
      (x : Activity) (sent : List Activity)
      → is_ending x ≡ true
      → sent ≡ before x
      → IsScript closed (sent ++ x ∷ [])
  ends_with x sent ending h = (x, ending, rw h refl)

  after_accepts-Scripted :
      (signals : P2PMatchWorkflow) (sent : List Activity)
      → sent ≡ opened
      → Scripted (after_accepts m (in_stage awaiting_accept signals sent))
  unfolding after_accepts
  after_accepts-Scripted signals sent h = elim (Bool-cases signals.declined) [
    | inl no_match ↦ rw no_match (ends_with _ sent refl h)
    | inr waiting ↦ rw waiting (elim (Bool-cases (both_accepted m signals)) [
      | inl both ↦ rw (both, h) refl
      | inr early ↦ rw early h
    ])
  ]

  after_starts-Scripted :
      (signals : P2PMatchWorkflow) (sent : List Activity)
      → sent ≡ accepted
      → Scripted (after_starts m (in_stage awaiting_start signals sent))
  unfolding after_starts
  after_starts-Scripted signals sent h = elim (Bool-cases (both_started m signals)) [
    | inl both ↦ rw (both, h) refl
    | inr early ↦ rw early h
  ]

  after_reports-Scripted :
      (signals : P2PMatchWorkflow) (sent : List Activity)
      → sent ≡ connected
      → Scripted (after_reports m (in_stage awaiting_report signals sent))
  unfolding after_reports
  after_reports-Scripted signals sent h = elim (Bool-cases (length signals.who_won == 2)) [
    | inl both ↦ rw both (elim (Bool-cases (agreed m signals)) [
      | inl same ↦ rw same (ends_with _ sent refl h)
      | inr apart ↦ rw apart (ends_with _ sent refl h)
    ])
    | inr early ↦ rw early h
  ]

  at_accept-Scripted :
      (stage : Stage) (signals : P2PMatchWorkflow) (sent : List Activity)
      → IsScript stage sent
      → Scripted (at_accept m stage (in_stage stage signals sent))
  at_accept-Scripted awaiting_accept signals sent h = after_accepts-Scripted signals sent h
  at_accept-Scripted awaiting_start signals sent h = h
  at_accept-Scripted awaiting_report signals sent h = h
  at_accept-Scripted closed signals sent h = h

  at_start-Scripted :
      (stage : Stage) (signals : P2PMatchWorkflow) (sent : List Activity)
      → IsScript stage sent
      → Scripted (at_start m stage (in_stage stage signals sent))
  at_start-Scripted awaiting_accept signals sent h = h
  at_start-Scripted awaiting_start signals sent h = after_starts-Scripted signals sent h
  at_start-Scripted awaiting_report signals sent h = h
  at_start-Scripted closed signals sent h = h

  at_report-Scripted :
      (stage : Stage) (signals : P2PMatchWorkflow) (sent : List Activity)
      → IsScript stage sent
      → Scripted (at_report m stage (in_stage stage signals sent))
  at_report-Scripted awaiting_accept signals sent h = h
  at_report-Scripted awaiting_start signals sent h = h
  at_report-Scripted awaiting_report signals sent h = after_reports-Scripted signals sent h
  at_report-Scripted closed signals sent h = h

  settle-Scripted : (r : Run) → Scripted r → Scripted (settle m r)
  unfolding settle
  settle-Scripted r h =
      let r1 = at_accept m r.stage r in
      let h1 = at_accept-Scripted r.stage r.signals r.sent h in
      let r2 = at_start m r1.stage r1 in
      let h2 = at_start-Scripted r1.stage r1.signals r1.sent h1 in
      at_report-Scripted r2.stage r2.signals r2.sent h2

  on_timer-Scripted :
      (stage : Stage) (signals : P2PMatchWorkflow) (sent : List Activity)
      → IsScript stage sent
      → Scripted (on_timer m stage (in_stage stage signals sent))
  unfolding on_timer
  on_timer-Scripted awaiting_accept signals sent h = ends_with _ sent refl h
  on_timer-Scripted awaiting_start signals sent h = ends_with _ sent refl h
  on_timer-Scripted awaiting_report signals sent h = ends_with _ sent refl h
  on_timer-Scripted closed signals sent h = h

  react-Scripted : (e : Event) (r : Run) → Scripted r → Scripted (react m e r)
  unfolding react
  react-Scripted (choice user accept) r h =
      settle-Scripted (record r { signals = match_choice user accept r.signals }) h
  react-Scripted (start user) r h =
      settle-Scripted (record r { signals = signal_start user r.signals }) h
  react-Scripted (who_won user winner) r h =
      settle-Scripted (record r { signals = signal_who_won user winner r.signals }) h
  react-Scripted (demo user hash) r h =
      settle-Scripted (record r { signals = submit_demo user hash r.signals }) h
  react-Scripted timer r h = on_timer-Scripted r.stage r.signals r.sent h

  react_all-Scripted : (es : List Event) (r : Run) → Scripted r → Scripted (react_all m es r)
  unfolding react_all
  react_all-Scripted [] r h = h
  react_all-Scripted (e ∷ es) r h = react_all-Scripted es (react m e r) (react-Scripted e r h)

  pub run-IsScript : (es : List Event) → let r = react_all m es begun in IsScript r.stage r.sent
  run-IsScript es = react_all-Scripted es begun refl
