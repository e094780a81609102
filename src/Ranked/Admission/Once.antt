-- ===== src/Ranked/Admission/Once.antt =====
-- A command id is admitted once (`dispatch`, lobby-server/src/commands.rs).
use mathlib.Core.Option
use steam_lobby.Prelude.{
  ℕ, Option, none, some, true, false, ◌≡◌, refl, sym, arith, ◌==◌, find, List, put_absent, [], ◌∷◌,
  ◌++◌, ==_refl, inl, inr, Option-cases, Bool-cases,
}
use steam_lobby.Core.Types.{Uuid, Token}
use steam_lobby.Core.Error.{Code, ok, err}
use steam_lobby.Store.Db.{Db}
use steam_lobby.Store.Rows.{InboxRow}
use steam_lobby.Ranked.Types.{
  SessionKind, CommandActor, CommandReceipt, RankedCommand, session_kind_eq, match_token,
}
use steam_lobby.Ranked.Config.{Config}
use steam_lobby.Ranked.Admission.{
  dispatch, admit_user_command, admit_match_command, replay_receipt, is_command_of, receipt_of,
  command_error, admit, admitted, new_receipt,
}

kind_refl : (k : SessionKind) → session_kind_eq k k ≡ true
kind_refl SessionKind.native = refl
kind_refl SessionKind.websocket = refl

-- the receipt as a later call sees it
abbrev pub seen : CommandReceipt → CommandReceipt
seen r = record r { newly_admitted = false }

find-append :
    (actor : CommandActor) (id : Uuid) (xs : List InboxRow) (row : InboxRow)
    → find (is_command_of actor id) xs ≡ none
    → is_command_of actor id row ≡ true
    → find (is_command_of actor id) (xs ++ row ∷ []) ≡ some row
find-append actor id [] row absent hit = ground arith
find-append actor id (x ∷ xs) row absent hit = ground (arith, find-append actor id xs row)

module _ {R : Type 0} (digest : RankedCommand → ℕ) (c : Config) (actor : CommandActor)
    (id : Uuid) where
  abbrev pub stored : Db R → Option InboxRow
  stored s = find (is_command_of actor id) s.inbox

  dispatch-replays :
      (command : RankedCommand) (s : Db R) (row : InboxRow)
      → stored s ≡ some row
      → (digest row.payload == digest command) ≡ true
      → dispatch digest c actor id command s ≡ (ok (receipt_of row), s)
  unfolding dispatch replay_receipt
  dispatch-replays command s row found same = ground arith

  -- A command id that its session has used for another payload is refused as a conflict, and
  -- nothing is written.
  pub dispatch_conflict :
      (command : RankedCommand) (s : Db R) (row : InboxRow)
      → stored s ≡ some row
      → (digest row.payload == digest command) ≡ false
      → dispatch digest c actor id command s ≡ (err (command_error Code.command_id_conflict), s)
  unfolding dispatch replay_receipt
  dispatch_conflict command s row found other = ground arith

  -- the row that an admission adds
  abbrev row_of : Option Token → RankedCommand → Db R → InboxRow
  row_of none command s =
      admitted actor id command (s.entropy s.drawn)
        (some (Option.get_or (put_absent actor.user_id 1 s.command_counters actor.user_id) 1)) none
        none none
  row_of (some t) command s =
      admitted actor id command (s.entropy s.drawn) none (some t)
        (some (Option.get_or (Option.map (λ u. u.next_command_sequence) (s.umvc3 t)) 0))
        (some (Option.get_or (Option.map (λ u. u.phase_version) (s.umvc3 t)) 0))

  admit-user :
      (command : RankedCommand) (s : Db R) {r : CommandReceipt}
      → stored s ≡ none
      → (admit_user_command digest actor id command s).0 ≡ ok r
      → ((admit_user_command digest actor id command s).1.inbox
          ≡ s.inbox ++ row_of none command s ∷ [])
        × (r ≡ new_receipt (s.entropy s.drawn))
  unfolding admit_user_command replay_receipt
  admit-user (RankedCommand.queue mode d) s absent fine = ground arith
  admit-user _ s absent fine = ground arith

  admit-match :
      (t : Token) (command : RankedCommand) (s : Db R) {r : CommandReceipt}
      → stored s ≡ none
      → (admit_match_command digest t actor id command s).0 ≡ ok r
      → ((admit_match_command digest t actor id command s).1.inbox
          ≡ s.inbox ++ row_of (some t) command s ∷ [])
        × (r ≡ new_receipt (s.entropy s.drawn))
  unfolding admit_match_command replay_receipt
  admit-match t command s absent fine = ground arith

  admit-adds :
      (t : Option Token) (command : RankedCommand) (s : Db R) {r : CommandReceipt}
      → stored s ≡ none
      → (admit digest t actor id command s).0 ≡ ok r
      → ((admit digest t actor id command s).1.inbox ≡ s.inbox ++ row_of t command s ∷ [])
        × (r ≡ new_receipt (s.entropy s.drawn))
  admit-adds none = admit-user
  admit-adds (some t) = admit-match t

  dispatch-admits :
      (command : RankedCommand) (s : Db R) {r : CommandReceipt}
      → stored s ≡ none
      → (dispatch digest c actor id command s).0 ≡ ok r
      → dispatch digest c actor id command s ≡ admit digest (match_token command) actor id command s
  unfolding dispatch replay_receipt
  dispatch-admits (RankedCommand.queue mode d) s absent fine = ground arith
  dispatch-admits _ s absent fine = ground arith

  fresh-once :
      (command : RankedCommand) (s : Db R) {r : CommandReceipt}
      → stored s ≡ none
      → (dispatch digest c actor id command s).0 ≡ ok r
      → (stored (dispatch digest c actor id command s).1
          ≡ some (row_of (match_token command) command s))
        × (r ≡ new_receipt (s.entropy s.drawn))
  fresh-once command s {r} absent fine = (
    rw (dispatch-admits command s absent fine, added.0)
        (find-append actor id s.inbox _ absent (fits (match_token command))),
    added.1,
  )
    where
      added :
          ((admit digest (match_token command) actor id command s).1.inbox
            ≡ s.inbox ++ row_of (match_token command) command s ∷ [])
          × (r ≡ new_receipt (s.entropy s.drawn))
      added =
          admit-adds (match_token command) command s absent
            (rw (sym (dispatch-admits command s absent fine)) fine)

      fits : (t : Option Token) → is_command_of actor id (row_of t command s) ≡ true
      fits none = ground (arith, kind_refl actor.session_kind)
      fits (some t) = ground (arith, kind_refl actor.session_kind)

  seen_new :
      (t : Option Token) (command : RankedCommand) (s : Db R) {r : CommandReceipt}
      → r ≡ new_receipt (s.entropy s.drawn)
      → receipt_of (row_of t command s) ≡ seen r
  seen_new none command s e = rw e refl
  seen_new (some t) command s e = rw e refl

  payload_of :
      (t : Option Token) (command : RankedCommand) (s : Db R)
      → (row_of t command s).payload ≡ command
  payload_of none command s = refl
  payload_of (some t) command s = refl

  -- A command that was answered with a receipt is, when sent again under its id, answered with the
  -- same receipt, as not newly admitted, and the second call writes nothing.
  pub dispatch_once :
      (command : RankedCommand) (s : Db R) {r : CommandReceipt}
      → (dispatch digest c actor id command s).0 ≡ ok r
      → dispatch digest c actor id command (dispatch digest c actor id command s).1
        ≡ (ok (seen r), (dispatch digest c actor id command s).1)
  dispatch_once command s {r} fine = elim (Option-cases (stored s)) [
    | inl absent ↦
        rw (sym (seen_new (match_token command) command s (fresh-once command s absent fine).1)) (
          dispatch-replays command _ _ (fresh-once command s absent fine).0
            (rw (payload_of (match_token command) command s) (==_refl (digest command))))
    | inr (row, found) ↦ elim (Bool-cases (digest row.payload == digest command)) [
      | inl same ↦ ground (arith, dispatch-replays command s row found same)
      | inr other ↦ ground (arith, dispatch_conflict command s row found other)
    ]
  ]
