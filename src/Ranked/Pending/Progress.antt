-- ===== src/Ranked/Pending/Progress.antt =====
-- The worker over all streams ends with nothing left that it can do (`drain_pending`,
-- lobby-server/src/commands.rs).
use steam_lobby.Prelude.{
  ℕ, zero, suc, ◌+◌, ◌<◌, Option, none, some, Bool, true, false, ◌≡◌, refl, arith, ◌&&◌, any, inl,
  inr, Bool-cases, Option-cases, List, [], ◌∷◌, length, select, update, is_some, option_eq,
}
use steam_lobby.Core.Types.{Token, PlayerId, MatchInfo}
use steam_lobby.Core.Error.{Code, Result, ok, err}
use steam_lobby.Store.Db.{Db}
use steam_lobby.Store.Numbers.{Numbers}
use steam_lobby.Store.Rows.{Umvc3Row, InboxRow}
use steam_lobby.Ranked.Types.{RankedCommand, is_pending}
use steam_lobby.Ranked.Config.{Config}
use steam_lobby.Ranked.Drain.{
  is_waiting, first_by, same_key, decided, apply_unless_terminal, drain_one_match_command,
  has_failed, decide_next, status_after,
}
use steam_lobby.Ranked.Drain.Progress.{
  any_mono, any-first_by, length-select-update, same_key_refl, first_by-none, suc_plus,
  inbox-apply_unless_terminal,
}
use steam_lobby.Ranked.UserStream.{is_waiting_of, apply_user_command, drain_one_user_command}
use steam_lobby.Ranked.Pending.{
  first_owner, match_owner, user_owner, all_pending, drain_one, continue_with, drain_pending_loop,
}

any_imp {ℓ} :
    {A : Type ℓ} (p q : A → Bool) (xs : List A)
    → ((x : A) → p x ≡ true → q x ≡ true)
    → any p xs ≡ true
    → any q xs ≡ true
any_imp p q [] imp h = h
any_imp p q (x ∷ xs) imp h = ground (arith, imp x, any_imp p q xs imp)

any-select {ℓ} :
    {A : Type ℓ} (p : A → Bool) (xs : List A) → any p xs ≡ true → 0 < length (select p xs)
any-select p [] h = ground arith
any-select p (x ∷ xs) h = ground (arith, any-select p xs)

first_owner-some :
    (f : InboxRow → Option ℕ) (k : ℕ) (xs : List InboxRow)
    → first_owner f xs ≡ some k
    → any (λ row. option_eq (f row) (some k)) xs ≡ true
unfolding first_owner
first_owner-some f k [] e = ground arith
first_owner-some f k (x ∷ xs) e = ground (arith, first_owner-some f k xs)

first_owner-none :
    (f : InboxRow → Option ℕ) (xs : List InboxRow)
    → first_owner f xs ≡ none
    → any (λ row. is_some (f row)) xs ≡ false
unfolding first_owner
first_owner-none f [] e = refl
first_owner-none f (x ∷ xs) e = ground (arith, first_owner-none f xs)

-- what one round has done: fewer commands are pending, or it has failed and changed nothing
abbrev Spends : {R : Type 0} → Result Bool × Db R → Db R → Type 0
Spends (ok true, after) before = all_pending after < all_pending before
Spends (ok false, after) before = ⊥
Spends (err _, after) before = after ≡ before

abbrev is_open : InboxRow → Bool
is_open row = is_pending row.status

module _ {R : Type 0} (N : Numbers R) (c : Config) where
  -- the first waiting row of a stream, once it is decided
  decided-fewer :
      (waits : InboxRow → Bool) (key : InboxRow → Option ℕ) (row : InboxRow)
      (f : InboxRow → InboxRow) (inbox : List InboxRow)
      → ((x : InboxRow) → waits x ≡ true → is_open x ≡ true)
      → ((x : InboxRow) → is_open (f x) ≡ false)
      → first_by key (select waits inbox) ≡ some row
      → length (select is_open (update (same_key row) f inbox)) < length (select is_open inbox)
  decided-fewer waits key row f inbox opens ended first =
      length-select-update is_open (same_key row) f ended inbox (
        any_imp (λ x. waits x && same_key row x) (λ x. is_open x && same_key row x) inbox
          (λ x h. ground (arith, opens x))
          (any_mono waits (same_key row) inbox
            (any-first_by key (same_key row) _ first (same_key_refl row))))

  decided_match-fewer :
      (t : Token) (row : InboxRow) (code : Option Code) (n : Option ℕ) (inbox : List InboxRow)
      → first_by (λ row. row.match_sequence) (select (is_waiting t) inbox) ≡ some row
      → length (select is_open (update (same_key row) (decided code n) inbox))
        < length (select is_open inbox)
  decided_match-fewer t row code n inbox first =
      decided-fewer (is_waiting t) (λ row. row.match_sequence) row (decided code n) inbox
        (λ x h. ground arith) (λ x. ended x code) first
    where
      ended : (x : InboxRow) (code : Option Code) → is_open (decided code n x) ≡ false
      ended x none = refl
      ended x (some _) = refl

  Spends-decide_next :
      (t : Token) (m : MatchInfo) (u : Umvc3Row) (next : Option InboxRow) (s : Db R)
      → 0 < length (select (is_waiting t) s.inbox)
      → first_by (λ row. row.match_sequence) (select (is_waiting t) s.inbox) ≡ next
      → Spends (decide_next N c t m u next s) s
  Spends-decide_next t m u none s some_wait first = absurd (ground (arith, first_by-none _ _ first))
  Spends-decide_next t m u (some row) s some_wait first =
      elim (Bool-cases (has_failed (apply_unless_terminal N c m u row s).0)) [
        | inl failed ↦ rw failed refl
        | inr went ↦ rw went (
            rw (inbox-apply_unless_terminal N c t m u row s)
              (decided_match-fewer t row _ _ s.inbox first))
      ]

  Spends-drain_one_match :
      (t : Token) (s : Db R)
      → any (λ row. option_eq (match_owner s row) (some t)) s.inbox ≡ true
      → Spends (drain_one_match_command N c t s) s
  unfolding drain_one_match_command
  Spends-drain_one_match t s owns = elim (Option-cases (s.matches t)) [
    | inl absent ↦ rw absent refl
    | inr (m, has_m) ↦ elim (Option-cases (s.umvc3 t)) [
      | inl absent ↦ rw (has_m, absent) refl
      | inr (u, has_u) ↦ rw (has_m, has_u) (Spends-decide_next t m u _ s waits refl)
    ]
  ]
    where
      waits : 0 < length (select (is_waiting t) s.inbox)
      waits = any-select (is_waiting t) s.inbox (
          any_imp (λ row. option_eq (match_owner s row) (some t)) (is_waiting t) s.inbox
            (λ x h. ground arith) owns)

  inbox-apply_user_command :
      (user : PlayerId) (command : RankedCommand) (s : Db R)
      → (apply_user_command N c user command s).1.inbox ≡ s.inbox
  unfolding apply_user_command
  inbox-apply_user_command user command s = ground arith

  decided_user-fewer :
      (user : PlayerId) (row : InboxRow) (code : Option Code) (inbox : List InboxRow)
      → first_by (λ row. row.user_sequence) (select (is_waiting_of user) inbox) ≡ some row
      → length (
          select is_open (
            update
              (same_key row)
              (λ r. record r { status = status_after code; error_code = code })
              inbox))
        < length (select is_open inbox)
  decided_user-fewer user row code inbox first =
      decided-fewer (is_waiting_of user) (λ row. row.user_sequence) row
        (λ r. record r { status = status_after code; error_code = code }) inbox
        (λ x h. ground arith) (λ x. ended x code) first
    where
      ended :
          (x : InboxRow) (code : Option Code)
          → is_open (record x { status = status_after code; error_code = code }) ≡ false
      ended x none = refl
      ended x (some _) = refl

  Spends-drain_one_user :
      (user : PlayerId) (s : Db R)
      → any (λ row. option_eq (user_owner s row) (some user)) s.inbox ≡ true
      → Spends (drain_one_user_command N c user s) s
  unfolding drain_one_user_command
  Spends-drain_one_user user s owns = elim (Option-cases (s.command_counters user)) [
    | inl absent ↦ rw absent refl
    | inr (n, counts) ↦
        elim (Option-cases
          (first_by (λ row. row.user_sequence) (select (is_waiting_of user) s.inbox))) [
            | inl nothing ↦ absurd (
                ground (
                  arith,
                  waits,
                  first_by-none (λ row. row.user_sequence) (select (is_waiting_of user) s.inbox)
                      nothing,
                ))
            | inr (row, first) ↦ elim (Option-cases (s.player_state user)) [
              | inl absent ↦ rw (counts, first, absent) refl
              | inr (p, known) ↦
                  rw (counts, first, known, inbox-apply_user_command user row.payload s)
                    (decided_user-fewer user row _ s.inbox first)
            ]
          ]
  ]
    where
      waits : 0 < length (select (is_waiting_of user) s.inbox)
      waits = any-select (is_waiting_of user) s.inbox (
          any_imp (λ row. option_eq (user_owner s row) (some user)) (is_waiting_of user) s.inbox
            (λ x h. ground arith) owns)

  -- no pending command has an owner
  abbrev pub IsIdle : Db R → Type 0
  IsIdle s =
      (any (λ row. is_some (match_owner s row)) s.inbox ≡ false)
      × (any (λ row. is_some (user_owner s row)) s.inbox ≡ false)

  -- what `drain_one` has done, by its answer
  abbrev Turn : Option (Result Bool × Db R) → Db R → Type 0
  Turn none before = IsIdle before
  Turn (some out) before = Spends out before

  Turn-drain_one : (s : Db R) → Turn (drain_one N c s) s
  unfolding drain_one
  Turn-drain_one s = elim (Option-cases (first_owner (match_owner s) s.inbox)) [
    | inl no_match ↦ elim (Option-cases (first_owner (user_owner s) s.inbox)) [
      | inl no_user ↦
          rw (no_match, no_user)
            (
              first_owner-none (match_owner s) s.inbox no_match,
              first_owner-none (user_owner s) s.inbox no_user,
            )
      | inr (user, owns) ↦
          rw (no_match, owns)
            (Spends-drain_one_user user s (first_owner-some (user_owner s) user s.inbox owns))
    ]
    | inr (t, owns) ↦
        rw owns (Spends-drain_one_match t s (first_owner-some (match_owner s) t s.inbox owns))
  ]

  -- Nothing is left to do, where the answer is a success.
  abbrev pub Done : Result ℕ × Db R → Type 0
  Done (ok _, after) = IsIdle after
  Done (err _, after) = Unit

  -- With fuel for one round more than there are pending commands, of all matches and users, the
  -- loop ends by itself: where it succeeds, no pending command is left that belongs to a ranked
  -- match or to a user with a counter, and more fuel changes neither answer nor database.
  pub drain_pending_loop-ends :
      (fuel more processed : ℕ) (s : Db R)
      → all_pending s < fuel
      → Done (drain_pending_loop N c fuel processed s)
        × (drain_pending_loop N c (fuel + more) processed s
            ≡ drain_pending_loop N c fuel processed s)
  unfolding drain_pending_loop
  drain_pending_loop-ends zero more processed s enough = absurd (ground arith)
  drain_pending_loop-ends (suc fuel) more processed s enough = rw (suc_plus fuel more) (
      go (λ n after. drain_pending_loop-ends fuel more n after) (drain_one N c s)
        (Turn-drain_one s))
    where
      go :
          ((n : ℕ) (after : Db R)
            → all_pending after < fuel
            → Done (drain_pending_loop N c fuel n after)
              × (drain_pending_loop N c (fuel + more) n after
                  ≡ drain_pending_loop N c fuel n after))
          → (turn : Option (Result Bool × Db R)) → Turn turn s
          → Done (continue_with N c (drain_pending_loop N c fuel) processed s turn)
            × (continue_with N c (drain_pending_loop N c (fuel + more)) processed s turn
                ≡ continue_with N c (drain_pending_loop N c fuel) processed s turn)
      go next none idle = (idle, refl)
      go next (some (ok true, after)) fewer = next (suc processed) after (ground arith)
      go next (some (ok false, after)) never = absurd never
      go next (some (err e, after)) same = (tt, refl)
