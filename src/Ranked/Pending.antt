-- ===== src/Ranked/Pending.antt =====
-- The worker over all streams (`drain_pending`, lobby-server/src/commands.rs).
--
-- It runs on fuel, one more than the number of commands that are pending. Tokens are compared as the
-- numbers that stand for them, as the text of a UUID is ordered like its number.
pub mod Progress
pub mod Stuck
use mathlib.Core.Option
use steam_lobby.Prelude.{
  ℕ, zero, suc, ◌+◌, Option, none, some, Bool, true, false, ◌&&◌, ltb, is_some, select, length,
  if◌then◌else◌, List, [], ◌∷◌,
}
use steam_lobby.Core.Types.{Token, PlayerId}
use steam_lobby.Core.Error.{Result, ok, err}
use steam_lobby.Core.Action.{Action}
use steam_lobby.Store.Db.{Db}
use steam_lobby.Store.Numbers.{Numbers}
use steam_lobby.Store.Rows.{InboxRow}
use steam_lobby.Ranked.Types.{is_pending}
use steam_lobby.Ranked.Config.{Config}
use steam_lobby.Ranked.Drain.{drain_one_match_command}
use steam_lobby.Ranked.UserStream.{drain_one_user_command}

-- the smaller of two, where there are two
abbrev pub least : Option ℕ → Option ℕ → Option ℕ
least none b = b
least (some a) none = some a
least (some a) (some b) = if ltb b a then some b else some a

-- SELECT owner … WHERE EXISTS(…) ORDER BY owner LIMIT 1, by the owner of each row of the inbox
unfoldable pub first_owner : (InboxRow → Option ℕ) → List InboxRow → Option ℕ
first_owner owner [] = none
first_owner owner (row ∷ rows) = least (owner row) (first_owner owner rows)

-- the id, where its table has a row for it
abbrev if_there : {A : Type 0} → (ℕ → Option A) → Option ℕ → Option ℕ
if_there table none = none
if_there table (some k) = if is_some (table k) then some k else none

module _ {R : Type 0} where
  -- the ranked match whose stream a pending command is in
  abbrev pub match_owner : Db R → InboxRow → Option Token
  match_owner s row = if is_pending row.status then if_there s.umvc3 row.match_token else none

  -- the user whose stream a pending command is in
  abbrev pub user_owner : Db R → InboxRow → Option PlayerId
  user_owner s row =
      if is_pending row.status && is_some row.user_sequence
      then if_there s.command_counters (some row.user_id)
      else none

  abbrev pub all_pending : Db R → ℕ
  all_pending s = length (select (λ row. is_pending row.status) s.inbox)

module _ {R : Type 0} (N : Numbers R) (c : Config) where
  -- one command of the first owner; none where nothing is to be done
  abbrev pub one_of_user : Option PlayerId → Db R → Option (Result Bool × Db R)
  one_of_user none s = none
  one_of_user (some user) s = some (drain_one_user_command N c user s)

  abbrev pub one_of_match : Option Token → Db R → Option (Result Bool × Db R)
  one_of_match none s = one_of_user (first_owner (user_owner s) s.inbox) s
  one_of_match (some t) s = some (drain_one_match_command N c t s)

  unfoldable pub drain_one : Db R → Option (Result Bool × Db R)
  unfolding first_owner drain_one_match_command drain_one_user_command
  drain_one s = one_of_match (first_owner (match_owner s) s.inbox) s

  -- `drain_one…? as usize`
  abbrev counted : Bool → ℕ → ℕ
  counted b n = if b then suc n else n

  abbrev pub continue_with :
      (ℕ → Action (Db R) ℕ) → ℕ → Db R → Option (Result Bool × Db R) → Result ℕ × Db R
  continue_with rest processed s none = (ok processed, s)
  continue_with rest processed s (some (ok b, after)) = rest (counted b processed) after
  continue_with rest processed s (some (err e, after)) = (err e, after)

  unfoldable pub drain_pending_loop : ℕ → ℕ → Action (Db R) ℕ
  unfolding drain_one
  drain_pending_loop zero processed s = (ok processed, s)
  drain_pending_loop (suc fuel) processed s =
      continue_with (drain_pending_loop fuel) processed s (drain_one s)

  unfoldable pub drain_pending : Action (Db R) ℕ
  unfolding drain_pending_loop
  drain_pending s = drain_pending_loop (suc (all_pending s)) 0 s
