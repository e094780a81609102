-- ===== src/Ranked/Feed.antt =====
-- The events of one recipient, page by page (`get_events`, lobby-server/src/commands.rs).
--
-- A cursor below 0 is read as 0, so that a cursor is a natural number here. An event has no time, as the
-- rows of the model have none.
pub mod Pages
use steam_lobby.Prelude.{
  ℕ, zero, suc, Option, none, some, ◌&&◌, ◌==◌, ltb, if◌then◌else◌, List, [], ◌∷◌,
}
use steam_lobby.Core.Types.{Uuid, Token}
use steam_lobby.Core.Error.{ok}
use steam_lobby.Core.Action.{Action}
use steam_lobby.Store.Rows.{EventRow, EventType, Payload}
use steam_lobby.Store.Db.{Db}

pub record RankedEvent (R : Type 0) : Type 0 where
  pub sequence_no : ℕ
  pub event_type : EventType
  pub match_token : Token
  pub actor : Option Uuid
  pub payload : Payload R

pub record EventsPage (R : Type 0) : Type 0 where
  pub events : List (RankedEvent R)
  pub next_cursor : ℕ

abbrev pub events_page_size : ℕ
events_page_size = 100

abbrev pub take : {A : Type 0} → ℕ → List A → List A
take zero xs = []
take (suc n) [] = []
take (suc n) (x ∷ xs) = x ∷ take n xs

module _ {R : Type 0} where
  abbrev pub event_of : ℕ → EventRow R → RankedEvent R
  event_of sequence row = record {
    sequence_no = sequence;
    event_type = row.event_type;
    match_token = row.match_token;
    actor = row.actor;
    payload = row.payload;
  }

  -- WHERE recipient_user_id=$1 AND recipient_sequence>$2
  abbrev pub events_after : Uuid → ℕ → List (EventRow R) → List (RankedEvent R)
  events_after id after [] = []
  events_after id after (row ∷ rows) =
      let rest = events_after id after rows in
      elim row.recipient [
        | none ↦ rest
        | some (recipient, sequence) ↦
            if recipient == id && ltb after sequence then event_of sequence row ∷ rest else rest
      ]

  abbrev pub insert_by_sequence : RankedEvent R → List (RankedEvent R) → List (RankedEvent R)
  insert_by_sequence e [] = e ∷ []
  insert_by_sequence e (x ∷ xs) =
      let rest = insert_by_sequence e xs in
      if ltb x.sequence_no e.sequence_no then x ∷ rest else e ∷ x ∷ xs

  -- ORDER BY recipient_sequence ASC
  abbrev pub sort_by_sequence : List (RankedEvent R) → List (RankedEvent R)
  sort_by_sequence [] = []
  sort_by_sequence (e ∷ es) = insert_by_sequence e (sort_by_sequence es)

  -- events.last().map_or(after, |event| event.sequence_no)
  abbrev pub cursor_of : ℕ → List (RankedEvent R) → ℕ
  cursor_of after [] = after
  cursor_of after (e ∷ es) = cursor_of e.sequence_no es

  abbrev pub page_of : ℕ → List (RankedEvent R) → EventsPage R
  page_of after events = record { events = events; next_cursor = cursor_of after events }

  unfoldable pub get_events : Uuid → ℕ → Action (Db R) (EventsPage R)
  get_events id after s = (
    ok (page_of after (take events_page_size (sort_by_sequence (events_after id after s.events)))),
    s,
  )
