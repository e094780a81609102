-- ===== src/RateLimit/Window.antt =====
-- The limit that `RateLimiter::check` keeps (lobby-server/src/rate_limit.rs).
use steam_lobby.Prelude.{
  ℕ, ◌≤◌, Bool, true, false, ◌≡◌, refl, sym, arith, leb, ltb, ◌==◌, ◌&&◌, not, length,
  length-append, select, if◌then◌else◌, List, [], ◌∷◌, ◌++◌, Bool-cases, inl, inr,
}
use steam_lobby.RateLimit.{RateLimiter, check, pop_elapsed, has_elapsed}

-- no hit of the list is before t
abbrev all_from : ℕ → List ℕ → Bool
all_from t [] = true
all_from t (x ∷ xs) = leb t x && all_from t xs

-- oldest first
abbrev pub is_sorted : List ℕ → Bool
is_sorted [] = true
is_sorted (x ∷ xs) = all_from x xs && is_sorted xs

-- no hit is after now
abbrev pub is_past : ℕ → List ℕ → Bool
is_past now [] = true
is_past now (x ∷ xs) = leb x now && is_past now xs

-- the hits that are not older than the window
abbrev pub recent : ℕ → ℕ → List ℕ → List ℕ
recent now window = select λ t. not (has_elapsed now window t)

recent-all_from :
    (now window t : ℕ) (xs : List ℕ)
    → has_elapsed now window t ≡ false
    → all_from t xs ≡ true
    → recent now window xs ≡ xs
recent-all_from now window t [] fresh later = refl
recent-all_from now window t (x ∷ xs) fresh later = ground (arith, recent-all_from now window t xs)

pop_elapsed-recent :
    (now window : ℕ) (xs : List ℕ)
    → is_sorted xs ≡ true
    → pop_elapsed now window xs ≡ recent now window xs
unfolding pop_elapsed
pop_elapsed-recent now window [] sorted = refl
pop_elapsed-recent now window (x ∷ xs) sorted =
    ground (arith, pop_elapsed-recent now window xs, recent-all_from now window x xs)

sorted_select :
    (now window : ℕ) (xs : List ℕ) (t : ℕ)
    → all_from t xs ≡ true
    → all_from t (recent now window xs) ≡ true
sorted_select now window [] t h = refl
sorted_select now window (x ∷ xs) t h = ground (arith, sorted_select now window xs t)

recent_sorted :
    (now window : ℕ) (xs : List ℕ) → is_sorted xs ≡ true → is_sorted (recent now window xs) ≡ true
recent_sorted now window [] h = refl
recent_sorted now window (x ∷ xs) h =
    ground (arith, recent_sorted now window xs, sorted_select now window xs x)

recent_past :
    (now window : ℕ) (xs : List ℕ)
    → is_past now xs ≡ true
    → is_past now (recent now window xs) ≡ true
recent_past now window [] h = refl
recent_past now window (x ∷ xs) h = ground (arith, recent_past now window xs)

length-recent : (now window : ℕ) (xs : List ℕ) → length (recent now window xs) ≤ length xs
length-recent now window [] = ground arith
length-recent now window (x ∷ xs) = ground (arith, length-recent now window xs)

all_from-snoc :
    (t now : ℕ) (xs : List ℕ) → all_from t xs ≡ true → t ≤ now → all_from t (xs ++ now ∷ []) ≡ true
all_from-snoc t now [] h before = ground arith
all_from-snoc t now (x ∷ xs) h before = ground (arith, all_from-snoc t now xs)

is_sorted-snoc :
    (now : ℕ) (xs : List ℕ)
    → is_sorted xs ≡ true
    → is_past now xs ≡ true
    → (is_sorted (xs ++ now ∷ []) ≡ true) × (is_past now (xs ++ now ∷ []) ≡ true)
is_sorted-snoc now [] sorted past = ground arith
is_sorted-snoc now (x ∷ xs) sorted past =
    ground (arith, is_sorted-snoc now xs, all_from-snoc x now xs)

-- The hits of every address are in order, none is in the future, and there are at most max.
abbrev pub is_kept : ℕ → ℕ → List ℕ → Bool
is_kept now max q = is_sorted q && is_past now q && leb (length q) max

abbrev pub IsKept : ℕ → RateLimiter → Type 0
IsKept now l = (ip : ℕ) → is_kept now l.max (l.hits ip) ≡ true

check-hits :
    (now ip : ℕ) (l : RateLimiter)
    → is_sorted (l.hits ip) ≡ true
    → let q = recent now l.window (l.hits ip) in
      ((check now ip l).0 ≡ ltb (length q) l.max)
      × ((check now ip l).1.hits ip ≡ (if ltb (length q) l.max then q ++ now ∷ [] else q))
unfolding check
check-hits now ip l sorted = rw (pop_elapsed-recent now l.window (l.hits ip) sorted) (ground arith)

check-other :
    (now ip j : ℕ) (l : RateLimiter) → (ip == j) ≡ false → (check now ip l).1.hits j ≡ l.hits j
unfolding check
check-other now ip j l other = ground arith

check-max : (now ip : ℕ) (l : RateLimiter) → (check now ip l).1.max ≡ l.max
unfolding check
check-max now ip l = ground arith

recent_kept :
    (now max window : ℕ) (q : List ℕ)
    → is_kept now max q ≡ true
    → is_kept now max (recent now window q) ≡ true
recent_kept now max window q kept =
    ground (arith, recent_sorted now window q, recent_past now window q, length-recent now window q)

grown_kept :
    (now max : ℕ) (q : List ℕ)
    → is_kept now max q ≡ true
    → is_kept now max (if ltb (length q) max then q ++ now ∷ [] else q) ≡ true
grown_kept now max q kept = ground (arith, is_sorted-snoc now q, length-append q (now ∷ []))

check-IsKept : (now ip : ℕ) (l : RateLimiter) → IsKept now l → IsKept now (check now ip l).1
check-IsKept now ip l kept j = elim (Bool-cases (ip == j)) [
  | inl same ↦
      rw
        (
          check-max now ip l,
          sym (eq_of_== ip j same),
          (check-hits now ip l (sorted (l.hits ip) (kept ip))).1,
        )
        (grown_kept now l.max _ (recent_kept now l.max l.window (l.hits ip) (kept ip)))
  | inr other ↦ rw (check-max now ip l, check-other now ip j l other) (kept j)
]
  where
    sorted : (q : List ℕ) → is_kept now l.max q ≡ true → is_sorted q ≡ true
    sorted q h = ground arith

    eq_of_== : (a b : ℕ) → (a == b) ≡ true → a ≡ b
    eq_of_== a b h = ground arith

IsKept-later : (now later : ℕ) (l : RateLimiter) → now ≤ later → IsKept now l → IsKept later l
IsKept-later now later l before kept ip = ground (arith, past_later (l.hits ip), kept ip)
  where
    past_later : (q : List ℕ) → is_past now q ≡ true → is_past later q ≡ true
    past_later [] h = refl
    past_later (x ∷ xs) h = ground (arith, past_later xs)

-- With a table of hits that was in order and within the limit at the present time or before, a
-- call is allowed exactly when the address has fewer than max hits that are not older than the
-- window; an allowed call is one more hit and a refused one none, the hits of all other addresses
-- stay, and the table is in order and within the limit afterwards.
pub check_limits :
    (before now ip : ℕ) (l : RateLimiter)
    → before ≤ now
    → IsKept before l
    → let q = recent now l.window (l.hits ip) in
      ((check now ip l).0 ≡ ltb (length q) l.max)
      × ((check now ip l).1.hits ip ≡ (if ltb (length q) l.max then q ++ now ∷ [] else q))
      × ((j : ℕ) → (ip == j) ≡ false → (check now ip l).1.hits j ≡ l.hits j)
      × IsKept now (check now ip l).1
check_limits before now ip l moved kept = (
  hits.0,
  hits.1,
  λ j. check-other now ip j l,
  check-IsKept now ip l (IsKept-later before now l moved kept),
)
  where
    sorted : (q : List ℕ) → is_kept now l.max q ≡ true → is_sorted q ≡ true
    sorted q h = ground arith

    hits :
        ((check now ip l).0 ≡ ltb (length (recent now l.window (l.hits ip))) l.max)
        × ((check now ip l).1.hits ip ≡ (
            if ltb (length (recent now l.window (l.hits ip))) l.max
            then recent now l.window (l.hits ip) ++ now ∷ []
            else recent now l.window (l.hits ip)))
    hits = check-hits now ip l (sorted (l.hits ip) (IsKept-later before now l moved kept ip))
