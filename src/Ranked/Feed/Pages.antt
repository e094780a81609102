-- ===== src/Ranked/Feed/Pages.antt =====
-- A client that reads its events page by page (`get_events`, lobby-server/src/commands.rs).
use Prim.Native.Nat.{min}
use steam_lobby.Prelude.{
  ℕ, zero, suc, ◌+◌, ◌-◌, ◌*◌, ◌≤◌, ◌<◌, ◌≡◌, refl, sym, ap, ◌∙◌, arith, ltb, if◌then◌else◌, List,
  [], ◌∷◌, ◌++◌, Bool-cases, inl, inr,
}
use steam_lobby.Core.Types.{Uuid}
use steam_lobby.Core.Error.{ok, err}
use steam_lobby.Store.Db.{Db}
use steam_lobby.Store.Rows.{EventRow}
use steam_lobby.Ranked.Events.{next_sequence}
use steam_lobby.Ranked.Events.Numbering.{IsGapless, numbers_of, count_up, count_up-add}
use steam_lobby.Ranked.Feed.{
  RankedEvent, get_events, events_after, insert_by_sequence, sort_by_sequence, cursor_of, take,
  events_page_size,
}

abbrev above : ℕ → List ℕ → List ℕ
above a [] = []
above a (n ∷ ns) = if ltb a n then n ∷ above a ns else above a ns

abbrev insert : ℕ → List ℕ → List ℕ
insert n [] = n ∷ []
insert n (x ∷ xs) = let rest = insert n xs in if ltb x n then x ∷ rest else n ∷ x ∷ xs

abbrev sort : List ℕ → List ℕ
sort [] = []
sort (n ∷ ns) = insert n (sort ns)

abbrev last_of : ℕ → List ℕ → ℕ
last_of a [] = a
last_of a (n ∷ ns) = last_of n ns

module _ {R : Type 0} where
  abbrev pub numbers : List (RankedEvent R) → List ℕ
  numbers [] = []
  numbers (e ∷ es) = e.sequence_no ∷ numbers es

  numbers-events_after :
      (id : Uuid) (a : ℕ) (rows : List (EventRow R))
      → numbers (events_after id a rows) ≡ above a (numbers_of id rows)
  numbers-events_after id a [] = refl
  numbers-events_after id a (row ∷ rows) = ground (arith, numbers-events_after id a rows)

  numbers-insert :
      (e : RankedEvent R) (es : List (RankedEvent R))
      → numbers (insert_by_sequence e es) ≡ insert e.sequence_no (numbers es)
  numbers-insert e [] = refl
  numbers-insert e (x ∷ xs) = ground (arith, numbers-insert e xs)

  numbers-sort : (es : List (RankedEvent R)) → numbers (sort_by_sequence es) ≡ sort (numbers es)
  numbers-sort [] = refl
  numbers-sort (e ∷ es) =
      numbers-insert e (sort_by_sequence es) ∙ ap (insert e.sequence_no) (numbers-sort es)

  numbers-take : (n : ℕ) (es : List (RankedEvent R)) → numbers (take n es) ≡ take n (numbers es)
  numbers-take zero es = refl
  numbers-take (suc n) [] = refl
  numbers-take (suc n) (e ∷ es) = ap (λ ns. e.sequence_no ∷ ns) (numbers-take n es)

  numbers-append : (xs ys : List (RankedEvent R)) → numbers (xs ++ ys) ≡ numbers xs ++ numbers ys
  numbers-append [] ys = refl
  numbers-append (x ∷ xs) ys = ap (λ ns. x.sequence_no ∷ ns) (numbers-append xs ys)

  cursor_of-numbers : (a : ℕ) (es : List (RankedEvent R)) → cursor_of a es ≡ last_of a (numbers es)
  cursor_of-numbers a [] = refl
  cursor_of-numbers a (e ∷ es) = cursor_of-numbers e.sequence_no es

above-all : (a m k : ℕ) → a < m → above a (count_up m k) ≡ count_up m k
above-all a m zero h = refl
above-all a m (suc k) h = ground (arith, above-all a (m + 1) k (omega (arith, h)))

above-count_up :
    (a m k : ℕ) → m ≤ a + 1 → above a (count_up m k) ≡ count_up (a + 1) ((m + k) - (a + 1))
above-count_up a m zero h = rw (nothing a m h) refl
  where
    nothing : (a m : ℕ) → m ≤ a + 1 → (m + 0) - (a + 1) ≡ 0
    nothing a m h = omega (arith, h)
above-count_up a m (suc k) h = elim (Bool-cases (ltb a m)) [
  | inl later ↦
      above-all a m (suc k) (ground arith)
      ∙ sym (rw (first a m h (ground arith), rest a m k h (ground arith)) refl)
  | inr earlier ↦
      rw earlier
        (above-count_up a (m + 1) k (ground arith) ∙ ap (count_up (a + 1)) (shift m k (a + 1)))
]
  where
    first : (a m : ℕ) → m ≤ a + 1 → a < m → a + 1 ≡ m
    first a m h later = omega (arith, h, later)

    rest : (a m k : ℕ) → m ≤ a + 1 → a < m → (m + suc k) - m ≡ suc k
    rest a m k h later = omega arith

    shift : (m k b : ℕ) → ((m + 1) + k) - b ≡ (m + suc k) - b
    shift m k b = omega arith

insert-count_up : (m k : ℕ) → insert m (count_up (m + 1) k) ≡ m ∷ count_up (m + 1) k
insert-count_up m zero = refl
insert-count_up m (suc k) = ground arith

sort-count_up : (m k : ℕ) → sort (count_up m k) ≡ count_up m k
sort-count_up m zero = refl
sort-count_up m (suc k) = ap (insert m) (sort-count_up (m + 1) k) ∙ insert-count_up m k

min-suc : (n k : ℕ) → min (suc n) (suc k) ≡ suc (min n k)
min-suc n k = ground arith

min-zero : (k : ℕ) → min 0 k ≡ 0
min-zero k = ground arith

min-none : (n : ℕ) → min n 0 ≡ 0
min-none n = ground arith

min-left :
    (p q n a : ℕ)
    → min p (n - (a + 1)) + min q (n - ((a + min p (n - (a + 1))) + 1)) ≡ min (p + q) (n - (a + 1))
min-left p q n a = ground arith

take-count_up : (n m k : ℕ) → take n (count_up m k) ≡ count_up m (min n k)
take-count_up zero m zero = refl
take-count_up zero m (suc k) = rw (min-zero (suc k)) refl
take-count_up (suc n) m zero = rw (min-none (suc n)) refl
take-count_up (suc n) m (suc k) = rw (min-suc n k) (ap (λ ns. m ∷ ns) (take-count_up n (m + 1) k))

last_of-count_up : (a k : ℕ) → last_of a (count_up (a + 1) k) ≡ a + k
last_of-count_up a zero = omega arith
last_of-count_up a (suc k) = last_of-count_up (a + 1) k ∙ shift a k
  where
    shift : (a k : ℕ) → (a + 1) + k ≡ a + suc k
    shift a k = omega arith

module _ {R : Type 0} where
  -- how many events of the recipient come after the cursor
  abbrev pub left : Uuid → ℕ → Db R → ℕ
  left id after s = next_sequence s.event_counters id - (after + 1)

  page_numbers :
      (size : ℕ) (id : Uuid) (after : ℕ) (s : Db R)
      → IsGapless s
      → numbers (take size (sort_by_sequence (events_after id after s.events)))
        ≡ count_up (after + 1) (min size (left id after s))
  page_numbers size id after s gapless =
      numbers-take size (sort_by_sequence (events_after id after s.events))
      ∙ ap (take size) (numbers-sort (events_after id after s.events))
      ∙ ap (λ ns. take size (sort ns)) (numbers-events_after id after s.events)
      ∙ ap (λ ns. take size (sort (above after ns))) (gapless id).1
      ∙ ap (λ ns. take size (sort ns)) (above-count_up after 1 (gapless id).0 (omega arith))
      ∙ ap (take size) (sort-count_up (after + 1) _)
      ∙ take-count_up size (after + 1) _
      ∙ ap (λ n. count_up (after + 1) (min size (n - (after + 1)))) (sym (gapless id).2)

  -- a client that asks for so many pages, each time from the cursor that it was given last
  unfoldable pub read_pages : ℕ → Uuid → ℕ → Db R → List (RankedEvent R)
  unfolding get_events
  read_pages zero id after s = []
  read_pages (suc k) id after s =
      let (result, s') = get_events id after s in
      elim result [ ok page ↦ page.events ++ read_pages k id page.next_cursor s' | err e ↦ [] ]

  -- In a log without gaps, a client that reads so many pages from a cursor on, following the cursor
  -- of each page, gets the events that carry the numbers after the cursor, each once and in order,
  -- up to a page's size of events for each page or to the last event there is.
  pub read_pages-numbers :
      (k : ℕ) (id : Uuid) (after : ℕ) (s : Db R)
      → IsGapless s
      → numbers (read_pages k id after s)
        ≡ count_up (after + 1) (min (k * events_page_size) (left id after s))
  unfolding read_pages get_events
  read_pages-numbers zero id after s gapless = rw (min-zero (left id after s)) refl
  read_pages-numbers (suc k) id after s gapless =
      numbers-append page (read_pages k id (cursor_of after page) s)
      ∙ ap (λ a. numbers page ++ numbers (read_pages k id a s)) cursor
      ∙ ap (λ ns. ns ++ numbers (read_pages k id (after + j) s)) here
      ∙ ap (λ ns. count_up (after + 1) j ++ ns) (read_pages-numbers k id (after + j) s gapless)
      ∙ ap (λ n. count_up (after + 1) j ++ count_up n more) (shift after j)
      ∙ count_up-add (after + 1) j more
      ∙ ap (count_up (after + 1)) total
    where
      page : List (RankedEvent R)
      page = take events_page_size (sort_by_sequence (events_after id after s.events))

      j : ℕ
      j = min events_page_size (left id after s)

      more : ℕ
      more = min (k * events_page_size) (left id (after + j) s)

      here : numbers page ≡ count_up (after + 1) j
      here = page_numbers events_page_size id after s gapless

      cursor : cursor_of after page ≡ after + j
      cursor = cursor_of-numbers after page ∙ ap (last_of after) here ∙ last_of-count_up after j

      one_more : (k : ℕ) → 100 + k * 100 ≡ suc k * 100
      one_more k = omega arith

      shift : (a b : ℕ) → (a + b) + 1 ≡ (a + 1) + b
      shift a b = omega arith

      total : j + more ≡ min (suc k * events_page_size) (left id after s)
      total =
          min-left events_page_size (k * events_page_size) (next_sequence s.event_counters id) after
          ∙ ap (λ n. min n (left id after s)) (one_more k)
