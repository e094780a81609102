-- ===== src/Pairing/Search.antt =====
-- The search through the candidates misses no pair (`pair_next_match_with_accept_timeout`,
-- lobby-server/src/db/queue.rs).
use mathlib.Core.List.{Memᴰ}
use mathlib.Core.Path.{subst}
use steam_lobby.Prelude.{
  String, Option, none, some, false, ◌==◌, str_eq, ◌≡◌, refl, sym, ap, ◌∙◌, arith, find, select,
  List, [], ◌∷◌, Bool-cases, Option-cases, inl, inr,
}
use steam_lobby.Core.Types.{PlayerId, MatchInfo}
use steam_lobby.Core.Error.{ok, Result-cases}
use steam_lobby.Core.Action.{Action}
use steam_lobby.Store.Rows.{QueueRow}
use steam_lobby.Store.Numbers.{Numbers}
use steam_lobby.Store.Db.{Db}
use steam_lobby.Store.Queue.{is_entry}
use steam_lobby.Pairing.Form.{Request, form_match}
use steam_lobby.Pairing.Claim.{claim}
use steam_lobby.Pairing.Claims.{can_pair, claim-none, claim-form_match, claim-error}
use steam_lobby.Pairing.Next.{in_order, insert_in_order, or_next, is_before}

module _ {R : Type 0} where
  Mem-insert_in_order :
      (x y : QueueRow R) (ys : List (QueueRow R)) → Memᴰ x (y ∷ ys) → Memᴰ x (insert_in_order y ys)
  unfolding insert_in_order
  Mem-insert_in_order x y [] m = m
  Mem-insert_in_order x y (z ∷ zs) m = elim (Bool-cases (is_before z y)) [
    | inl before ↦ rw before (behind (Mem-insert_in_order x y zs) m)
    | inr after ↦ rw after m
  ]
    where
      behind :
          (Memᴰ x (y ∷ zs) → Memᴰ x (insert_in_order y zs))
          → Memᴰ x (y ∷ z ∷ zs)
          → Memᴰ x (z ∷ insert_in_order y zs)
      behind go (Memᴰ.head e) = Memᴰ.tail (go (Memᴰ.head e))
      behind go (Memᴰ.tail (Memᴰ.head e)) = Memᴰ.head e
      behind go (Memᴰ.tail (Memᴰ.tail d)) = Memᴰ.tail (go (Memᴰ.tail d))

  pub Mem-in_order : (x : QueueRow R) (xs : List (QueueRow R)) → Memᴰ x xs → Memᴰ x (in_order xs)
  unfolding in_order
  Mem-in_order x [] m = elim m [ ]
  Mem-in_order x (y ∷ ys) (Memᴰ.head e) = Mem-insert_in_order x y (in_order ys) (Memᴰ.head e)
  Mem-in_order x (y ∷ ys) (Memᴰ.tail d) =
      Mem-insert_in_order x y (in_order ys) (Memᴰ.tail (Mem-in_order x ys d))

  -- an entry that is found for a mode is one of the mode's entries
  pub find-select :
      (id : PlayerId) (mode : String) (rows : List (QueueRow R)) (x : QueueRow R)
      → find (is_entry id mode) rows ≡ some x
      → Memᴰ x (select (λ row. str_eq row.game_mode mode) rows)
  find-select id mode [] x found = absurd (ground arith)
  find-select id mode (y ∷ ys) x found = elim (Bool-cases (str_eq y.game_mode mode)) [
    | inl same ↦ rw same (elim (Bool-cases (y.user_id == id)) [
      | inl it ↦ Memᴰ.head (ground arith)
      | inr other ↦ Memᴰ.tail (find-select id mode ys x (ground arith))
    ])
    | inr other ↦ rw other (find-select id mode ys x (ground arith))
  ]

  pub Mem-each :
      (y : QueueRow R) (ys : List (QueueRow R)) (P : QueueRow R → Type 0)
      → P y
      → ((b : QueueRow R) → Memᴰ b ys → P b)
      → (b : QueueRow R) → Memᴰ b (y ∷ ys)
      → P b
  Mem-each y ys P first rest b (Memᴰ.head e) = subst P (sym e) first
  Mem-each y ys P first rest b (Memᴰ.tail d) = rest b d

  or_next-goes_on :
      (first next : Action (Db R) (Option MatchInfo)) (s : Db R)
      → (first s).0 ≡ ok none
      → or_next first next s ≡ next (first s).1
  or_next-goes_on first next s at = rw at refl

  pub or_next-none :
      (first next : Action (Db R) (Option MatchInfo)) (s : Db R)
      → (or_next first next s).0 ≡ ok none
      → ((first s).0 ≡ ok none)
        × ((next (first s).1).0 ≡ ok none)
        × ((or_next first next s).1 ≡ (next (first s).1).1)
  or_next-none first next s nobody = elim (Result-cases (first s).0) [
    | inl (none, at) ↦ (
      at,
      sym (ap (λ p. p.0) (or_next-goes_on first next s at)) ∙ nobody,
      ap (λ p. p.1) (or_next-goes_on first next s at),
    )
    | inl (some m, at) ↦ absurd (ground arith)
    | inr (e, at) ↦ absurd (ground arith)
  ]

module _ {R : Type 0} (N : Numbers R) (q : Request) where
  pub claim-undone :
      (a b : PlayerId) (s : Db R)
      → (claim N q a b s).0 ≡ ok none
      → ((claim N q a b s).1 ≡ s) × (can_pair N q a b s ≡ false)
  claim-undone a b s nobody = elim (Bool-cases (can_pair N q a b s)) [
    | inr stay ↦ (rw (claim-none N q a b s stay) refl, stay)
    | inl can ↦ elim (Option-cases (find (is_entry a q.mode) s.queue)) [
      | inl gone ↦ absurd (ground arith)
      | inr (x, found_a) ↦ elim (Option-cases (find (is_entry b q.mode) s.queue)) [
        | inl gone ↦ absurd (ground arith)
        | inr (y, found_b) ↦ elim (Result-cases (form_match q x y s).0) [
          | inl (m, formed) ↦
              absurd (ground (arith, claim-form_match N q a b s x y m can found_a found_b formed))
          | inr (e, failed) ↦
              absurd (ground (arith, claim-error N q a b s x y e can found_a found_b failed))
        ]
      ]
    ]
  ]
