-- ===== src/Server/Umvc3.antt =====
-- lobby-server/src/temporal/umvc3.rs: the durable workflow of a ranked match.
--
-- An activity that fails is tried again without limit. Whatever else writes to the database while the
-- workflow waits is an argument of each turn.
use steam_lobby.Prelude.{
  ℕ, Option, none, some, Bool, true, false, ◌≡◌, is_some, if◌then◌else◌, List, [], ◌∷◌,
  Option-cases, Bool-cases, inl, inr,
}
use steam_lobby.Core.Types.{Token}
use steam_lobby.Core.Error.{Result, ok, err}
use steam_lobby.Core.Action.{lift, ◌>>◌}
use steam_lobby.Store.Db.{Db}
use steam_lobby.Store.Numbers.{Numbers}
use steam_lobby.Store.Rows.{Umvc3Row}
use steam_lobby.Ranked.Types.{Umvc3Phase, DrainMatchState, phase_eq}
use steam_lobby.Ranked.Config.{Config}
use steam_lobby.Ranked.Drain.{drain_match, expire, load_match_state, drain_all, expire_phase}

-- the two activities of the workflow, with the arguments that vary
pub data LifecycleCall : Type 0 where
  drain_call : LifecycleCall
  expire_call : ℕ → LifecycleCall

-- where the run stands: it tries an activity, waits for a timer, or has returned
pub data Standing : Type 0 where
  trying : LifecycleCall → Standing
  waiting : DrainMatchState → Standing
  returned : Standing

-- which timer goes off first, where the run waits
pub data Wake : Type 0 where
  poll deadline : Wake

abbrev pub after_state : DrainMatchState → Standing
after_state state = if state.terminal then returned else waiting state

-- a phase without a deadline has only the poll
abbrev pub woken : Wake → DrainMatchState → LifecycleCall
woken poll state = drain_call
woken deadline state =
    if is_some state.remaining_ms then expire_call state.phase_version else drain_call

module _ {R : Type 0} (N : Numbers R) (c : Config) (t : Token) where
  unfoldable pub call : LifecycleCall → Db R → Result DrainMatchState × Db R
  call drain_call s = drain_match N c t s
  call (expire_call version) s = expire N c t version s

  abbrev pub tried : LifecycleCall → Result DrainMatchState × Db R → Standing × Db R
  tried again (ok state, s) = (after_state state, s)
  tried again (err e, s) = (trying again, s)

  -- one turn: others have done `meanwhile`, then the attempt is made or a timer goes off
  unfoldable pub turn : (Db R → Db R) → Wake → Standing → Db R → Standing × Db R
  unfolding call
  turn meanwhile wake (trying again) s = tried again (call again (meanwhile s))
  turn meanwhile wake (waiting state) s = (trying (woken wake state), meanwhile s)
  turn meanwhile wake returned s = (returned, meanwhile s)

  unfoldable pub run_umvc3 : List ((Db R → Db R) × Wake) → Standing → Db R → Standing × Db R
  unfolding turn
  run_umvc3 [] standing s = (standing, s)
  run_umvc3 ((meanwhile, wake) ∷ turns) standing s =
      let (next, after) = turn meanwhile wake standing s in run_umvc3 turns next after

abbrev pub is_terminal : Option Umvc3Row → Bool
is_terminal none = false
is_terminal (some u) = phase_eq u.phase Umvc3Phase.terminal

-- where the run has returned, the phase is terminal
abbrev pub EndsTerminal : {R : Type 0} → Token → Standing × Db R → Type 0
EndsTerminal t (returned, s) = is_terminal (s.umvc3 t) ≡ true
EndsTerminal t (trying _, s) = Unit
EndsTerminal t (waiting _, s) = Unit

-- what others do leaves a terminal phase terminal
abbrev pub KeepsTerminal : {R : Type 0} → Token → List ((Db R → Db R) × Wake) → Type 0
KeepsTerminal t [] = Unit
KeepsTerminal {R} t ((meanwhile, wake) ∷ turns) =
    ((s : Db R) → is_terminal (s.umvc3 t) ≡ true → is_terminal ((meanwhile s).umvc3 t) ≡ true)
    × KeepsTerminal t turns

module _ {R : Type 0} (N : Numbers R) (c : Config) (t : Token) where
  -- the state that is read is the state that is there
  loaded :
      (again : LifecycleCall) (s : Db R) → EndsTerminal t (tried N c t again (load_match_state t s))
  unfolding load_match_state
  loaded again s = elim (Option-cases (s.umvc3 t)) [
    | inl absent ↦ rw absent tt
    | inr (u, has_u) ↦ elim (Bool-cases (phase_eq u.phase Umvc3Phase.terminal)) [
      | inl over ↦ rw (has_u, over) (rw has_u over)
      | inr goes_on ↦ rw (has_u, goes_on) tt
    ]
  ]

  after_first :
      (again : LifecycleCall) (first : Result (Unit {0})) (s : Db R)
      → EndsTerminal t (tried N c t again ((lift first >> load_match_state t) s))
  after_first again (ok u) s = loaded again s
  after_first again (err e) s = tt

  after_both :
      (again : LifecycleCall) (first : Result (Unit {0})) (version : ℕ) (s : Db R)
      → EndsTerminal t
          (tried N c t again ((lift first >> (expire_phase N c t version >> load_match_state t)) s))
  after_both again (ok u) version s =
      let (second, after) = expire_phase N c t version s in after_first again second after
  after_both again (err e) version s = tt

  call-EndsTerminal :
      (again : LifecycleCall) (s : Db R) → EndsTerminal t (tried N c t again (call N c t again s))
  unfolding call drain_match expire
  call-EndsTerminal drain_call s =
      let (first, after) = drain_all N c t s in after_first drain_call first after
  call-EndsTerminal (expire_call version) s =
      let (first, after) = drain_all N c t s in after_both (expire_call version) first version after

  turn-EndsTerminal :
      (meanwhile : Db R → Db R) (wake : Wake) (standing : Standing) (s : Db R)
      → ((d : Db R) → is_terminal (d.umvc3 t) ≡ true → is_terminal ((meanwhile d).umvc3 t) ≡ true)
      → EndsTerminal t (standing, s)
      → EndsTerminal t (turn N c t meanwhile wake standing s)
  unfolding turn
  turn-EndsTerminal meanwhile wake (trying again) s keeps h = call-EndsTerminal again (meanwhile s)
  turn-EndsTerminal meanwhile wake (waiting state) s keeps h = tt
  turn-EndsTerminal meanwhile wake returned s keeps h = keeps s h

  run_from-EndsTerminal :
      (turns : List ((Db R → Db R) × Wake)) (standing : Standing) (s : Db R)
      → KeepsTerminal t turns
      → EndsTerminal t (standing, s)
      → EndsTerminal t (run_umvc3 N c t turns standing s)
  unfolding run_umvc3
  run_from-EndsTerminal [] standing s keeps h = h
  run_from-EndsTerminal ((meanwhile, wake) ∷ turns) standing s (keep, keeps) h =
      run_from-EndsTerminal turns (turn N c t meanwhile wake standing s).0
        (turn N c t meanwhile wake standing s).1 keeps
        (turn-EndsTerminal meanwhile wake standing s keep h)

  -- Whatever timers go off, however often activities fail and are tried again, and whatever others
  -- write meanwhile, as long as a terminal phase stays terminal under it: once the workflow of a
  -- ranked match, which begins with a drain, has returned, the phase of the match is terminal.
  pub run_umvc3-EndsTerminal :
      (turns : List ((Db R → Db R) × Wake)) (s : Db R)
      → KeepsTerminal t turns
      → EndsTerminal t (run_umvc3 N c t turns (trying drain_call) s)
  run_umvc3-EndsTerminal turns s keeps = run_from-EndsTerminal turns (trying drain_call) s keeps tt
