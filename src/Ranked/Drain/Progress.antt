-- ===== src/Ranked/Drain/Progress.antt =====
-- The worker's loop ends with nothing left to do (`drain_match`, lobby-server/src/commands.rs).
use steam_lobby.Prelude.{
  ℕ, zero, suc, ◌+◌, ◌<◌, ◌≤◌, Option, none, some, Bool, true, false, ◌≡◌, refl, arith, ◌&&◌, any,
  inl, inr, Bool-cases, Option-cases, List, [], ◌∷◌, length, select, update,
}
use steam_lobby.Core.Types.{Token, MatchInfo}
use steam_lobby.Core.Error.{Code, Result, ok, err}
use steam_lobby.Store.Db.{Db}
use steam_lobby.Store.Numbers.{Numbers}
use steam_lobby.Store.Rows.{Umvc3Row, InboxRow}
use steam_lobby.Ranked.Types.{SessionKind, session_kind_eq}
use steam_lobby.Ranked.Config.{Config}
use steam_lobby.Ranked.Apply.Refusals.{inbox-apply_match_command}
use steam_lobby.Ranked.Drain.{
  is_waiting, first_by, same_key, decided, pending_count, apply_unless_terminal,
  drain_one_match_command, drain_loop, has_failed, decide_next, go_on,
}

pub any_mono {ℓ} :
    {A : Type ℓ} (p q : A → Bool) (xs : List A)
    → any q (select p xs) ≡ true
    → any (λ x. p x && q x) xs ≡ true
any_mono p q [] h = h
any_mono p q (x ∷ xs) h = ground (arith, any_mono p q xs)

pub any-first_by :
    (key : InboxRow → Option ℕ) (q : InboxRow → Bool) (xs : List InboxRow) {row : InboxRow}
    → first_by key xs ≡ some row
    → q row ≡ true
    → any q xs ≡ true
unfolding first_by
any-first_by key q [] e h = ground arith
any-first_by key q (x ∷ xs) e h = elim (Option-cases (first_by key xs)) [
  | inl nothing ↦ ground arith
  | inr (y, found) ↦ elim (Bool-cases (q y)) [
    | inl holds ↦ ground (arith, any-first_by key q xs found holds)
    | inr fails ↦ ground arith
  ]
]

module _ {ℓ} {A : Type ℓ} (p k : A → Bool) (f : A → A) (out : (x : A) → p (f x) ≡ false) where
  select-update-shrinks : (xs : List A) → length (select p (update k f xs)) ≤ length (select p xs)
  select-update-shrinks [] = ground arith
  select-update-shrinks (x ∷ xs) = ground (arith, out x, select-update-shrinks xs)

  -- An update that ends what it touches, and touches something, leaves fewer.
  pub length-select-update :
      (xs : List A)
      → any (λ x. p x && k x) xs ≡ true
      → length (select p (update k f xs)) < length (select p xs)
  length-select-update [] h = ground arith
  length-select-update (x ∷ xs) h =
      ground (arith, out x, select-update-shrinks xs, length-select-update xs)

pub same_key_refl : (row : InboxRow) → same_key row row ≡ true
same_key_refl row = ground (arith, kind row.session_kind)
  where
    kind : (k : SessionKind) → session_kind_eq k k ≡ true
    kind SessionKind.native = refl
    kind SessionKind.websocket = refl

pub first_by-none :
    (key : InboxRow → Option ℕ) (xs : List InboxRow) → first_by key xs ≡ none → length xs ≡ 0
unfolding first_by
first_by-none key [] e = refl
first_by-none key (x ∷ xs) e = ground arith

pub suc_plus : (a b : ℕ) → suc a + b ≡ suc (a + b)
suc_plus a b = omega arith

module _ {R : Type 0} (N : Numbers R) (c : Config) (t : Token) where
  pub inbox-apply_unless_terminal :
      (m : MatchInfo) (u : Umvc3Row) (row : InboxRow) (s : Db R)
      → (apply_unless_terminal N c m u row s).1.inbox ≡ s.inbox
  unfolding apply_unless_terminal
  inbox-apply_unless_terminal m u row s =
      ground (arith, inbox-apply_match_command N c m u row.user_id row.payload s)

  decided-fewer :
      (row : InboxRow) (code : Option Code) (sequence : Option ℕ) (inbox : List InboxRow)
      → first_by (λ row. row.match_sequence) (select (is_waiting t) inbox) ≡ some row
      → length (select (is_waiting t) (update (same_key row) (decided code sequence) inbox))
        < length (select (is_waiting t) inbox)
  decided-fewer row code sequence inbox first =
      length-select-update (is_waiting t) (same_key row) (decided code sequence) (λ x. ended x code)
        inbox
        (any_mono (is_waiting t) (same_key row) inbox
          (any-first_by _ (same_key row) _ first (same_key_refl row)))
    where
      ended : (x : InboxRow) (code : Option Code) → is_waiting t (decided code sequence x) ≡ false
      ended x none = ground arith
      ended x (some _) = ground arith

  -- what one round has done, by its answer
  abbrev pub Round : Result Bool × Db R → Db R → Type 0
  Round (ok true, after) before = pending_count t after < pending_count t before
  Round (ok false, after) before = (after ≡ before) × (pending_count t before ≡ 0)
  Round (err _, after) before = after ≡ before

  Round-decide_next :
      (m : MatchInfo) (u : Umvc3Row) (next : Option InboxRow) (s : Db R)
      → first_by (λ row. row.match_sequence) (select (is_waiting t) s.inbox) ≡ next
      → Round (decide_next N c t m u next s) s
  Round-decide_next m u none s first = (refl, first_by-none _ _ first)
  Round-decide_next m u (some row) s first =
      elim (Bool-cases (has_failed (apply_unless_terminal N c m u row s).0)) [
        | inl failed ↦ rw failed refl
        | inr went ↦
            rw went
              (rw (inbox-apply_unless_terminal m u row s) (decided-fewer row _ _ s.inbox first))
      ]

  Round-drain_one : (s : Db R) → Round (drain_one_match_command N c t s) s
  unfolding drain_one_match_command
  Round-drain_one s = elim (Option-cases (s.matches t)) [
    | inl absent ↦ rw absent refl
    | inr (m, has_m) ↦ elim (Option-cases (s.umvc3 t)) [
      | inl absent ↦ rw (has_m, absent) refl
      | inr (u, has_u) ↦ rw (has_m, has_u) (Round-decide_next m u _ s refl)
    ]
  ]

  -- Nothing is left to do, where the answer is a success.
  abbrev pub Done : Result (Unit {0}) × Db R → Type 0
  Done (ok _, after) = pending_count t after ≡ 0
  Done (err _, after) = Unit

  -- With fuel for one round more than there are pending commands, the loop ends by itself: where
  -- it succeeds, no command of the match is pending, and more fuel changes neither answer nor
  -- database.
  pub drain_loop-ends :
      (fuel more : ℕ) (s : Db R)
      → pending_count t s < fuel
      → Done (drain_loop N c fuel t s)
        × (drain_loop N c (fuel + more) t s ≡ drain_loop N c fuel t s)
  unfolding drain_loop
  drain_loop-ends zero more s enough = ground arith
  drain_loop-ends (suc fuel) more s enough = rw (suc_plus fuel more) (
      go (λ after. drain_loop-ends fuel more after) (drain_one_match_command N c t s)
        (Round-drain_one s))
    where
      go :
          ((after : Db R)
            → pending_count t after < fuel
            → Done (drain_loop N c fuel t after)
              × (drain_loop N c (fuel + more) t after ≡ drain_loop N c fuel t after))
          → (step : Result Bool × Db R) → Round step s
          → Done (go_on N c step (drain_loop N c fuel t step.1))
            × (go_on N c step (drain_loop N c (fuel + more) t step.1)
                ≡ go_on N c step (drain_loop N c fuel t step.1))
      go next (ok true, after) fewer = next after (ground arith)
      go next (ok false, after) (same, empty) = (rw same empty, refl)
      go next (err _, after) same = (tt, refl)
