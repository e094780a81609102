-- ===== src/Ranked/Drain/Order.antt =====
-- The order in which the worker takes the commands (`ORDER BY … LIMIT 1`, lobby-server/src/commands.rs).
use steam_lobby.Prelude.{
  ℕ, Option, none, some, Bool, true, false, ◌≡◌, refl, arith, ◌||◌, any, inl, inr, Bool-cases, List,
  [], ◌∷◌,
}
use steam_lobby.Store.Rows.{InboxRow}
use steam_lobby.Ranked.Drain.Progress.{any-first_by}
use steam_lobby.Ranked.Drain.{first_by, precedes, earlier}

precedes_asym : (a b : Option ℕ) → precedes a b ≡ true → precedes b a ≡ false
precedes_asym (some a) (some b) h = ground arith
precedes_asym (some a) none h = refl
precedes_asym none b h = ground arith

not_precedes_trans :
    (a b c : Option ℕ) → precedes a b ≡ false → precedes b c ≡ false → precedes a c ≡ false
not_precedes_trans (some a) (some b) (some c) h k = ground arith
not_precedes_trans (some a) none c h k = ground arith
not_precedes_trans (some a) (some b) none h k = ground arith
not_precedes_trans none b c h k = refl

-- some row comes before k
abbrev pub any_before : (InboxRow → Option ℕ) → Option ℕ → List InboxRow → Bool
any_before key k [] = false
any_before key k (x ∷ xs) = precedes (key x) k || any_before key k xs

none_before :
    (key : InboxRow → Option ℕ) (b c : Option ℕ) (xs : List InboxRow)
    → precedes b c ≡ false
    → any_before key b xs ≡ false
    → any_before key c xs ≡ false
none_before key b c [] h k = refl
none_before key b c (x ∷ xs) h k =
    ground (arith, not_precedes_trans (key x) b c, none_before key b c xs)

any-first_by-none :
    (key : InboxRow → Option ℕ) (k : Option ℕ) (xs : List InboxRow)
    → first_by key xs ≡ none
    → any_before key k xs ≡ false
unfolding first_by
any-first_by-none key k [] e = refl
any-first_by-none key k (x ∷ xs) e = ground arith

taken :
    (key : InboxRow → Option ℕ) (x : InboxRow) (xs : List InboxRow) (o : Option InboxRow)
    (k : Option ℕ)
    → first_by key xs ≡ o
    → ((y : InboxRow) (j : Option ℕ) → o ≡ some y → key y ≡ j → any_before key j xs ≡ false)
    → key (earlier key x o) ≡ k
    → any_before key k (x ∷ xs) ≡ false
taken key x xs none k e least at =
    ground (arith, any-first_by-none key k xs e, precedes_asym (key x) (key x))
taken key x xs (some y) k e least at = elim (Bool-cases (precedes (key y) (key x))) [
  | inl before ↦ ground (arith, precedes_asym (key y) (key x) before, least y k refl)
  | inr after ↦ ground (
    arith,
    precedes_asym (key x) (key x),
    none_before key (key y) k xs,
    least y (key y) refl refl,
  )
]

first_before :
    (key : InboxRow → Option ℕ) (xs : List InboxRow) (row : InboxRow) (k : Option ℕ)
    → first_by key xs ≡ some row
    → key row ≡ k
    → any_before key k xs ≡ false
unfolding first_by
first_before key [] row k e at = ground arith
first_before key (x ∷ xs) row k e at =
    taken key x xs (first_by key xs) k refl (λ y j found here. first_before key xs y j found here)
      (ground arith)

-- The row that the worker takes is one of the rows, and no row comes before it.
pub first_by_least :
    (key : InboxRow → Option ℕ) (xs : List InboxRow) {row : InboxRow}
    → first_by key xs ≡ some row
    → (any_before key (key row) xs ≡ false)
      × ((q : InboxRow → Bool) → q row ≡ true → any q xs ≡ true)
first_by_least key xs {row} e =
    (first_before key xs row (key row) e refl, λ q. any-first_by key q xs e)
