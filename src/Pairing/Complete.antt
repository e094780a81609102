-- ===== src/Pairing/Complete.antt =====
-- The search through the candidates misses no pair that could be formed (`pair_next_match_with_accept_timeout`,
-- lobby-server/src/db/queue.rs).
use mathlib.Core.List.{Memᴰ}
use steam_lobby.Prelude.{
  none, some, Bool, true, false, not, ◌&&◌, ◌==◌, str_eq, ltb, ◌≡◌, refl, sym, ap, ◌∙◌, arith, find,
  select, List, [], ◌∷◌, Bool-cases, Option-cases, inl, inr, length,
}
use steam_lobby.Core.Types.{PlayerId, DateTime}
use steam_lobby.Core.Error.{ok}
use steam_lobby.Store.Rows.{QueueRow}
use steam_lobby.Store.Numbers.{Numbers}
use steam_lobby.Store.Db.{Db}
use steam_lobby.Store.Queue.{is_entry}
use steam_lobby.Pairing.Form.{Request, native, has_lease}
use steam_lobby.Pairing.Claim.{claim}
use steam_lobby.Pairing.Claims.{can_pair, find-is_entry}
use steam_lobby.Pairing.Next.{
  in_order, is_hint, pair_with, pair_each, or_next, pair_next_match_with_accept_timeout,
}
use steam_lobby.Pairing.Search.{Mem-in_order, find-select, Mem-each, or_next-none, claim-undone}

module _ {R : Type 0} (N : Numbers R) (q : Request) where
  pair_with-nil :
      (now : DateTime) (a : QueueRow R) (s : Db R) → pair_with N q now a [] s ≡ (ok none, s)
  unfolding pair_with
  pair_with-nil now a s = refl

  pair_with-skip :
      (now : DateTime) (a y : QueueRow R) (ys : List (QueueRow R)) (s : Db R)
      → is_hint N q now a y ≡ false
      → pair_with N q now a (y ∷ ys) s ≡ pair_with N q now a ys s
  unfolding pair_with
  pair_with-skip now a y ys s away = rw away refl

  pair_with-try :
      (now : DateTime) (a y : QueueRow R) (ys : List (QueueRow R)) (s : Db R)
      → is_hint N q now a y ≡ true
      → pair_with N q now a (y ∷ ys) s
        ≡ or_next (claim N q a.user_id y.user_id) (pair_with N q now a ys) s
  unfolding pair_with
  pair_with-try now a y ys s hint = rw hint refl

  -- A search that pairs nobody has changed nothing, and none of the opponents that it was to look at
  -- could be paired.
  pair_with-none :
      (now : DateTime) (a : QueueRow R) (bs : List (QueueRow R)) (s : Db R)
      → (pair_with N q now a bs s).0 ≡ ok none
      → ((pair_with N q now a bs s).1 ≡ s)
        × ((b : QueueRow R)
            → Memᴰ b bs
            → is_hint N q now a b ≡ true
            → can_pair N q a.user_id b.user_id s ≡ false)
  pair_with-none now a [] s nobody = (ap (λ p. p.1) (pair_with-nil now a s), λ b m. elim m [ ])
  pair_with-none now a (y ∷ ys) s nobody = elim (Bool-cases (is_hint N q now a y)) [
    | inr away ↦
        let same = pair_with-skip now a y ys s away in
        let rest = pair_with-none now a ys s (sym (ap (λ p. p.0) same) ∙ nobody) in
        (
          ap (λ p. p.1) same ∙ rest.0,
          Mem-each y ys
              (λ b. is_hint N q now a b ≡ true → can_pair N q a.user_id b.user_id s ≡ false)
              (λ hint. absurd (ground arith)) rest.1,
        )
    | inl hint ↦
        let same = pair_with-try now a y ys s hint in
        let both =
          or_next-none (claim N q a.user_id y.user_id) (pair_with N q now a ys) s
            (sym (ap (λ p. p.0) same) ∙ nobody) in
        let undone = claim-undone N q a.user_id y.user_id s both.0 in
        let rest = pair_with-none now a ys s (rw⁻¹ undone.0 (both.1)) in
        (
          ap (λ p. p.1) same ∙ both.2 ∙ ap (λ t. (pair_with N q now a ys t).1) undone.0 ∙ rest.0,
          Mem-each y ys
              (λ b. is_hint N q now a b ≡ true → can_pair N q a.user_id b.user_id s ≡ false)
              (λ _. undone.1) rest.1,
        )
  ]

  pair_each-nil :
      (now : DateTime) (bs : List (QueueRow R)) (s : Db R)
      → pair_each N q now bs [] s ≡ (ok none, s)
  unfolding pair_each
  pair_each-nil now bs s = refl

  pair_each-skip :
      (now : DateTime) (bs : List (QueueRow R)) (x : QueueRow R) (xs : List (QueueRow R)) (s : Db R)
      → (native q && not (has_lease now x)) ≡ true
      → pair_each N q now bs (x ∷ xs) s ≡ pair_each N q now bs xs s
  unfolding pair_each
  pair_each-skip now bs x xs s late = rw late refl

  pair_each-try :
      (now : DateTime) (bs : List (QueueRow R)) (x : QueueRow R) (xs : List (QueueRow R)) (s : Db R)
      → (native q && not (has_lease now x)) ≡ false
      → pair_each N q now bs (x ∷ xs) s
        ≡ or_next (pair_with N q now x bs) (pair_each N q now bs xs) s
  unfolding pair_each
  pair_each-try now bs x xs s live = rw live refl

  -- the hints that the search follows
  abbrev is_tried : DateTime → QueueRow R → QueueRow R → Bool
  is_tried now a b = not (native q && not (has_lease now a)) && is_hint N q now a b

  abbrev HasNone : DateTime → List (QueueRow R) → Db R → QueueRow R → Type 0
  HasNone now bs s a =
      (b : QueueRow R)
      → Memᴰ b bs
      → is_tried now a b ≡ true
      → can_pair N q a.user_id b.user_id s ≡ false

  pair_each-none :
      (now : DateTime) (bs xs : List (QueueRow R)) (s : Db R)
      → (pair_each N q now bs xs s).0 ≡ ok none
      → ((pair_each N q now bs xs s).1 ≡ s) × ((a : QueueRow R) → Memᴰ a xs → HasNone now bs s a)
  pair_each-none now bs [] s nobody = (ap (λ p. p.1) (pair_each-nil now bs s), λ a m. elim m [ ])
  pair_each-none now bs (x ∷ xs) s nobody = elim (Bool-cases (native q && not (has_lease now x))) [
    | inl late ↦
        let same = pair_each-skip now bs x xs s late in
        let rest = pair_each-none now bs xs s (sym (ap (λ p. p.0) same) ∙ nobody) in
        (
          ap (λ p. p.1) same ∙ rest.0,
          Mem-each x xs (HasNone now bs s) (λ b m tried. absurd (ground arith)) rest.1,
        )
    | inr live ↦
        let same = pair_each-try now bs x xs s live in
        let both =
          or_next-none (pair_with N q now x bs) (pair_each N q now bs xs) s
            (sym (ap (λ p. p.0) same) ∙ nobody) in
        let none_x = pair_with-none now x bs s both.0 in
        let rest = pair_each-none now bs xs s (rw⁻¹ none_x.0 (both.1)) in
        (
          ap (λ p. p.1) same ∙ both.2 ∙ ap (λ t. (pair_each N q now bs xs t).1) none_x.0 ∙ rest.0,
          Mem-each x xs (HasNone now bs s) (λ b m tried. none_x.1 b m (ground arith)) rest.1,
        )
  ]

  abbrev candidates : Db R → List (QueueRow R)
  candidates s = in_order (select (λ row. str_eq row.game_mode q.mode) s.queue)

  -- a pair that can be formed is one that the search comes to
  is_tried_of_can_pair :
      (a b : PlayerId) (s : Db R) (x y : QueueRow R)
      → (a == b) ≡ false
      → can_pair N q a b s ≡ true
      → find (is_entry a q.mode) s.queue ≡ some x
      → find (is_entry b q.mode) s.queue ≡ some y
      → x.user_id ≡ a
      → y.user_id ≡ b
      → is_tried s.now x y ≡ true
  is_tried_of_can_pair a b s x y apart can found_a found_b at_a at_b = ground arith

  length-two :
      (x y : QueueRow R) (rows : List (QueueRow R))
      → (x.user_id == y.user_id) ≡ false
      → Memᴰ x rows
      → Memᴰ y rows
      → ltb (length rows) 2 ≡ false
  length-two x y [] apart m n = elim m [ ]
  length-two x y (z ∷ []) apart (Memᴰ.head e) (Memᴰ.head f) = absurd (ground arith)
  length-two x y (z ∷ []) apart (Memᴰ.tail d) n = elim d [ ]
  length-two x y (z ∷ []) apart (Memᴰ.head e) (Memᴰ.tail d) = elim d [ ]
  length-two x y (z ∷ w ∷ rows) apart m n = ground arith

  few-none :
      (s : Db R)
      → ltb (length (candidates s)) 2 ≡ true
      → pair_next_match_with_accept_timeout N q s ≡ (ok none, s)
  unfolding pair_next_match_with_accept_timeout
  few-none s few = rw few refl

  many-pair_each :
      (s : Db R)
      → ltb (length (candidates s)) 2 ≡ false
      → pair_next_match_with_accept_timeout N q s
        ≡ pair_each N q s.now (candidates s) (candidates s) s
  unfolding pair_next_match_with_accept_timeout
  many-pair_each s many = rw many refl

  missed :
      (a b : PlayerId) (s : Db R)
      → (a == b) ≡ false
      → (pair_next_match_with_accept_timeout N q s).0 ≡ ok none
      → (x y : QueueRow R) → can_pair N q a b s ≡ true
      → find (is_entry a q.mode) s.queue ≡ some x
      → find (is_entry b q.mode) s.queue ≡ some y
      → can_pair N q a b s ≡ false
  missed a b s apart nobody x y can found_a found_b =
      let at_a = find-is_entry a q.mode s.queue x found_a in
      let at_b = find-is_entry b q.mode s.queue y found_b in
      let mem_a = candidate a x found_a in
      let mem_b = candidate b y found_b in
      let many = length-two x y (candidates s) (rw (at_a, at_b) apart) mem_a mem_b in
      let same = many-pair_each s many in
      let all =
        pair_each-none s.now (candidates s) (candidates s) s (sym (ap (λ p. p.0) same) ∙ nobody) in
      rw⁻¹ (at_a, at_b)
        (all.1 x mem_a y mem_b (is_tried_of_can_pair a b s x y apart can found_a found_b at_a at_b))
    where
      candidate :
          (id : PlayerId) (z : QueueRow R)
          → find (is_entry id q.mode) s.queue ≡ some z
          → Memᴰ z (candidates s)
      candidate id z found =
          Mem-in_order z (select (λ row. str_eq row.game_mode q.mode) s.queue)
            (find-select id q.mode s.queue z found)

  -- Where the search pairs nobody, it has changed nothing, and no two different players could have
  -- been paired: whoever waits, waits because every opponent is unsuitable.
  pub pair_next_complete :
      (s : Db R)
      → (pair_next_match_with_accept_timeout N q s).0 ≡ ok none
      → ((pair_next_match_with_accept_timeout N q s).1 ≡ s)
        × ((a b : PlayerId) → (a == b) ≡ false → can_pair N q a b s ≡ false)
  pair_next_complete s nobody = (
    elim (Bool-cases (ltb (length (candidates s)) 2)) [
      | inl few ↦ ap (λ p. p.1) (few-none s few)
      | inr many ↦
          let same = many-pair_each s many in
          ap (λ p. p.1) same
          ∙ (pair_each-none s.now (candidates s) (candidates s) s
              (sym (ap (λ p. p.0) same) ∙ nobody)).0
    ],
    λ a b apart. elim (Bool-cases (can_pair N q a b s)) [
      | inr stay ↦ stay
      | inl can ↦ elim (Option-cases (find (is_entry a q.mode) s.queue)) [
        | inl gone ↦ ground arith
        | inr (x, found_a) ↦ elim (Option-cases (find (is_entry b q.mode) s.queue)) [
          | inl gone ↦ ground arith
          | inr (y, found_b) ↦ missed a b s apart nobody x y can found_a found_b
        ]
      ]
    ],
  )
