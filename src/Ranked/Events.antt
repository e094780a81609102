-- ===== src/Ranked/Events.antt =====
-- Recipient-local event numbers (`emit_recipient_events`, lobby-server/src/commands.rs).
pub mod Numbering
use mathlib.Core.Option
use steam_lobby.Prelude.{
  ℕ, ◌+◌, Option, some, ◌&&◌, ◌==◌, ltb, if◌then◌else◌, List, [], ◌∷◌, ◌++◌, Table, put,
}
use steam_lobby.Core.Types.{Uuid, Token, MatchInfo}
use steam_lobby.Store.Rows.{EventRow, EventType, Payload}
use steam_lobby.Store.Db.{Db}

abbrev event_index : EventType → ℕ
event_index EventType.paired = 0
event_index EventType.accepted = 1
event_index EventType.declined = 2
event_index EventType.lobby_published = 3
event_index EventType.phase_changed = 4
event_index EventType.command_result = 5
event_index EventType.resolved = 6
event_index EventType.disputed = 7
event_index EventType.phase_expired = 8

-- An event before it has its number: the recipient, the type and the payload.
abbrev pub Outgoing : Type 0 → Type 0
Outgoing R = Uuid × EventType × Payload R

-- the counter of a recipient, whose row starts at 1
abbrev pub next_sequence : Table ℕ → Uuid → ℕ
next_sequence counters id = Option.get_or (counters id) 1

module _ {R : Type 0} where
  -- sort_unstable_by_key(|event| event.0)
  insert_by_recipient : Outgoing R → List (Outgoing R) → List (Outgoing R)
  insert_by_recipient e [] = e ∷ []
  insert_by_recipient e (x ∷ xs) = if ltb e.0 x.0 then e ∷ x ∷ xs else x ∷ insert_by_recipient e xs

  sort_by_recipient : List (Outgoing R) → List (Outgoing R)
  unfolding insert_by_recipient
  sort_by_recipient [] = []
  sort_by_recipient (e ∷ es) = insert_by_recipient e (sort_by_recipient es)

  -- dedup_by(|left, right| left.0 == right.0 && left.1 == right.1), after a kept event
  dedup_after : Outgoing R → List (Outgoing R) → List (Outgoing R)
  dedup_after x [] = []
  dedup_after x (y ∷ ys) =
      let dropped = dedup_after x ys in
      let kept = y ∷ dedup_after y ys in
      if y.0 == x.0 && event_index y.1 == event_index x.1 then dropped else kept

  dedup : List (Outgoing R) → List (Outgoing R)
  unfolding dedup_after
  dedup [] = []
  dedup (x ∷ xs) = x ∷ dedup_after x xs

  -- one number and one row for each event
  unfoldable pub allocate :
      Token → Option Uuid → List (Outgoing R) → Table ℕ → List ℕ × Table ℕ × List (EventRow R)
  allocate t actor [] counters = ([], counters, [])
  allocate t actor ((recipient, event_type, payload) ∷ es) counters =
      let sequence = next_sequence counters recipient in
      let (sequences, after, rows) = allocate t actor es (put recipient (sequence + 1) counters) in
      (
        sequence ∷ sequences,
        after,
        record {
          match_token = t;
          event_type = event_type;
          actor = actor;
          recipient = some (recipient, sequence);
          payload = payload;
        }
            ∷ rows,
      )

  unfoldable pub numbered :
      Token → Option Uuid → List (Outgoing R) → Table ℕ → List ℕ × Table ℕ × List (EventRow R)
  unfolding sort_by_recipient dedup allocate
  numbered t actor es counters = allocate t actor (dedup (sort_by_recipient es)) counters

  abbrev pub emit_recipient_events : Token → Option Uuid → List (Outgoing R) → Db R → List ℕ × Db R
  emit_recipient_events t actor es s =
      let result = numbered t actor es s.event_counters in
      (result.0, record s { event_counters = result.1; events = s.events ++ result.2 })

  -- the same event to both players
  abbrev pub emit_simple_participant_event :
      MatchInfo → Option Uuid → EventType → Payload R → Db R → Db R
  emit_simple_participant_event m actor event_type payload s =
      (emit_recipient_events m.match_token actor
        ((m.player_a, event_type, payload) ∷ (m.player_b, event_type, payload) ∷ []) s).1
