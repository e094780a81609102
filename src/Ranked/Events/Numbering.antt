-- ===== src/Ranked/Events/Numbering.antt =====
-- The numbers of a recipient's events (`emit_recipient_events`, lobby-server/src/commands.rs).
use steam_lobby.Prelude.{
  ℕ, zero, suc, ◌+◌, Option, none, some, ◌≡◌, refl, ap, arith, ◌==◌, if◌then◌else◌, length, List,
  [], ◌∷◌, ◌++◌, put, Table, Bool-cases, inl, inr,
}
use steam_lobby.Core.Types.{Uuid, Token}
use steam_lobby.Store.Db.{Db}
use steam_lobby.Store.Rows.{EventRow}
use steam_lobby.Ranked.Events.{
  Outgoing, next_sequence, allocate, numbered, dedup, sort_by_recipient, emit_recipient_events,
}

-- n, n + 1, …
abbrev pub count_up : ℕ → ℕ → List ℕ
count_up from zero = []
count_up from (suc k) = from ∷ count_up (from + 1) k

module _ {R : Type 0} where
  -- how many of the events go to a recipient
  abbrev pub events_to : Uuid → List (Outgoing R) → ℕ
  events_to id [] = 0
  events_to id (e ∷ es) = let rest = events_to id es in if e.0 == id then suc rest else rest

  -- the numbers of a recipient's rows, in the order of the rows
  abbrev pub numbers_of : Uuid → List (EventRow R) → List ℕ
  numbers_of id [] = []
  numbers_of id (row ∷ rows) =
      let rest = numbers_of id rows in
      elim row.recipient [
        | none ↦ rest
        | some (recipient, sequence) ↦ if recipient == id then sequence ∷ rest else rest
      ]

  allocate_numbers :
      (t : Token) (actor : Option Uuid) (id : Uuid) (es : List (Outgoing R)) (counters : Table ℕ)
      → (numbers_of id (allocate t actor es counters).2
          ≡ count_up (next_sequence counters id) (events_to id es))
        × (next_sequence (allocate t actor es counters).1 id
            ≡ next_sequence counters id + events_to id es)
  unfolding allocate
  allocate_numbers t actor id [] counters = (refl, omega arith)
  allocate_numbers t actor id ((recipient, event_type, payload) ∷ es) counters =
      elim (Bool-cases (recipient == id)) [
        | inl same ↦ ground (
          arith,
          allocate_numbers t actor id es
              (put recipient (next_sequence counters recipient + 1) counters),
        )
        | inr other ↦ ground (
          arith,
          allocate_numbers t actor id es
              (put recipient (next_sequence counters recipient + 1) counters),
        )
      ]

length-count_up : (n k : ℕ) → length (count_up n k) ≡ k
length-count_up n zero = refl
length-count_up n (suc k) = omega (arith, length-count_up (n + 1) k)

pub count_up-add : (n j k : ℕ) → count_up n j ++ count_up (n + j) k ≡ count_up n (j + k)
count_up-add n zero k = rw (zero_plus n, plus_zero k) refl
  where
    zero_plus : (a : ℕ) → a + zero ≡ a
    zero_plus a = omega arith

    plus_zero : (a : ℕ) → zero + a ≡ a
    plus_zero a = omega arith
count_up-add n (suc j) k =
    rw (shift n j, suc_plus j k) (ap (λ xs. n ∷ xs) (count_up-add (n + 1) j k))
  where
    shift : (a b : ℕ) → a + suc b ≡ (a + 1) + b
    shift a b = omega arith

    suc_plus : (a b : ℕ) → suc a + b ≡ suc (a + b)
    suc_plus a b = omega arith

module _ {R : Type 0} where
  pub numbers_of-append :
      (id : Uuid) (xs ys : List (EventRow R))
      → numbers_of id (xs ++ ys) ≡ numbers_of id xs ++ numbers_of id ys
  numbers_of-append id [] ys = refl
  numbers_of-append id (x ∷ xs) ys = ground (arith, numbers_of-append id xs ys)

  -- The log has no gap: a recipient's events carry the numbers from 1 on, and the recipient's counter
  -- is the next one.
  abbrev pub IsGapless : Db R → Type 0
  IsGapless s =
      (id : Uuid)
      → (n : ℕ) × (numbers_of id s.events ≡ count_up 1 n)
        × (next_sequence s.event_counters id ≡ 1 + n)

  -- Rows with new numbers at the end of the log keep it without gaps.
  pub allocate-IsGapless :
      (t : Token) (actor : Option Uuid) (es : List (Outgoing R)) (s : Db R)
      → IsGapless s
      → IsGapless (record s {
        event_counters = (allocate t actor es s.event_counters).1;
        events = s.events ++ (allocate t actor es s.event_counters).2;
      })
  allocate-IsGapless t actor es s gapless id = (
    n + more,
    rw (numbers_of-append id s.events rows, before.0, fresh.0, before.1) (count_up-add 1 n more),
    rw (fresh.1, before.1) (omega arith),
  )
    where
      rows : List (EventRow R)
      rows = (allocate t actor es s.event_counters).2

      n : ℕ
      n = (gapless id).0

      more : ℕ
      more = events_to id es

      before : (numbers_of id s.events ≡ count_up 1 n) × (next_sequence s.event_counters id ≡ 1 + n)
      before = ((gapless id).1, (gapless id).2)

      fresh :
          (numbers_of id rows ≡ count_up (next_sequence s.event_counters id) more)
          × (next_sequence (allocate t actor es s.event_counters).1 id
              ≡ next_sequence s.event_counters id + more)
      fresh = allocate_numbers t actor id es s.event_counters

  -- Emitting events, whatever they are and in whatever order they come, leaves an event log
  -- without gaps: every recipient's events carry the numbers 1, 2, ... in order, and the
  -- recipient's counter is the next one.
  pub emit_recipient_events-IsGapless :
      (t : Token) (actor : Option Uuid) (es : List (Outgoing R)) (s : Db R)
      → IsGapless s
      → IsGapless (emit_recipient_events t actor es s).1
  unfolding numbered
  emit_recipient_events-IsGapless t actor es s gapless =
      allocate-IsGapless t actor (dedup (sort_by_recipient es)) s gapless
