-- ===== src/Server/Intruders.antt =====
-- What the reports of others than the players do (`P2PMatchWorkflow`,
-- lobby-server/src/temporal/workflows.rs, and `finish_match`, activities.rs).
use steam_lobby.Prelude.{false, none, ◌==◌, ◌≡◌, refl, arith, List, [], ◌∷◌, ◌++◌, map}
use steam_lobby.Core.Types.{PlayerId, Token}
use steam_lobby.Core.Error.{LobbyError, err}
use steam_lobby.Store.Numbers.{Numbers}
use steam_lobby.Workflow.{
  MatchArgs, Run, Activity, P2PMatchWorkflow, react, settle, after_reports, winner_by, who_won,
  awaiting_report, closed, finish_match,
}
use steam_lobby.Server.State.{AppState}
use steam_lobby.Server.Frames.{finish_match-none}
use steam_lobby.Server.Perform.{perform}

-- a run that waits for the reports and has none yet
abbrev pub quiet : P2PMatchWorkflow → List Activity → Run
quiet signals sent = record {
  stage = awaiting_report;
  signals = record signals { who_won = [] };
  sent = sent;
}

module _ (m : MatchArgs) (x y v w : PlayerId) (apart : (x == y) ≡ false)
    (xa : (x == m.player_a) ≡ false) (xb : (x == m.player_b) ≡ false)
    (ya : (y == m.player_a) ≡ false) (yb : (y == m.player_b) ≡ false) where
  abbrev told : P2PMatchWorkflow → List Activity → Run
  told signals sent = react m (who_won y w) (react m (who_won x v) (quiet signals sent))

  no_winner_a : winner_by m.player_a ((x, v) ∷ (y, w) ∷ []) ≡ none
  unfolding winner_by
  no_winner_a = ground arith

  no_winner_b : winner_by m.player_b ((x, v) ∷ (y, w) ∷ []) ≡ none
  unfolding winner_by
  no_winner_b = ground arith

  told-closed :
      (signals : P2PMatchWorkflow) (sent : List Activity) → (told signals sent).stage ≡ closed
  unfolding react settle after_reports
  told-closed signals sent = rw apart (rw (no_winner_a, no_winner_b) refl)

  told-sent :
      (signals : P2PMatchWorkflow) (sent : List Activity)
      → (told signals sent).sent
        ≡ sent ++ finish_match none (map (λ d. d.1) signals.demo_hashes) ∷ []
  unfolding react settle after_reports
  told-sent signals sent = rw apart (rw (no_winner_a, no_winner_b) refl)

-- Where a run waits for the reports of the players and has none yet, the reports of any two other
-- users, whomever they name, make it return with a result that names no winner; and that activity
-- is refused with InvalidReport wherever it is executed, and changes nothing.
pub strangers_report :
    {R : Type 0} (N : Numbers R) (m : MatchArgs) (t : Token) (x y v w : PlayerId)
    → (x == y) ≡ false
    → (x == m.player_a) ≡ false
    → (x == m.player_b) ≡ false
    → (y == m.player_a) ≡ false
    → (y == m.player_b) ≡ false
    → (signals : P2PMatchWorkflow) (sent : List Activity)
    → let r = react m (who_won y w) (react m (who_won x v) (quiet signals sent)) in
      let last = finish_match none (map (λ d. d.1) signals.demo_hashes) in
      (r.stage ≡ closed)
      × (r.sent ≡ sent ++ last ∷ [])
      × ((s : AppState R) → perform N t last s ≡ (err (LobbyError.invalid_report t), s))
unfolding perform
strangers_report N m t x y v w apart xa xb ya yb signals sent = (
  told-closed m x y v w apart xa xb ya yb signals sent,
  told-sent m x y v w apart xa xb ya yb signals sent,
  λ s. finish_match-none N t s,
)
