-- ===== src/Pong/Restore.antt =====
-- The serialised state gives the game back (lobby-core/src/pong.rs).
use mathlib.Core.Option
use steam_lobby.Prelude.{
  ℕ, zero, suc, ◌+◌, ◌*◌, ◌≡◌, refl, sym, ap, ◌∙◌, arith, Bool, true, false, not, ◌&&◌, ◌≤◌, Option,
  none, some, List, [], ◌∷◌, ◌++◌, length,
}
use steam_lobby.Pong.State.{
  PongGame, F64, take, drop, byte_at, full_state, restore, no_target, bytes_of, numbers, value_at,
  target_of,
}

take-append : {A : Type 0} (n : ℕ) (xs ys : List A) → length xs ≡ n → take n (xs ++ ys) ≡ xs
take-append zero [] ys h = refl
take-append zero (x ∷ xs) ys h = absurd (omega (arith, h))
take-append (suc n) [] ys h = absurd (omega (arith, h))
take-append (suc n) (x ∷ xs) ys h = ap (λ zs. x ∷ zs) (take-append n xs ys (omega (arith, h)))

drop-append :
    {A : Type 0} (n k : ℕ) (xs ys : List A) → length xs ≡ n → drop (n + k) (xs ++ ys) ≡ drop k ys
drop-append n k [] ys h = rw (zero_plus n k (sym h)) refl
  where
    zero_plus : (a b : ℕ) → a ≡ 0 → a + b ≡ b
    zero_plus a b e = omega arith
drop-append zero k (x ∷ xs) ys h = absurd (omega (arith, h))
drop-append (suc n) k (x ∷ xs) ys h = rw (suc_plus n k) (drop-append n k xs ys (omega (arith, h)))
  where
    suc_plus : (a b : ℕ) → suc a + b ≡ suc (a + b)
    suc_plus a b = omega arith

drop_nil : {A : Type 0} (xs : List A) (k : ℕ) → xs ≡ [] → drop k xs ≡ []
drop_nil xs zero e = e
drop_nil [] (suc k) e = refl
drop_nil (x ∷ xs) (suc k) e = absurd (ground arith)

drop_add : {A : Type 0} (n k : ℕ) (xs : List A) → drop (n + k) xs ≡ drop k (drop n xs)
drop_add zero k xs = rw (zero_plus k) refl
  where
    zero_plus : (a : ℕ) → 0 + a ≡ a
    zero_plus a = omega arith
drop_add (suc n) k [] = rw (suc_plus n k, drop_nil [] k refl) refl
  where
    suc_plus : (a b : ℕ) → suc a + b ≡ suc (a + b)
    suc_plus a b = omega arith
drop_add (suc n) k (x ∷ xs) = rw (suc_plus n k) (drop_add n k xs)
  where
    suc_plus : (a b : ℕ) → suc a + b ≡ suc (a + b)
    suc_plus a b = omega arith

-- the first byte of the n-th number
abbrev offset : ℕ → ℕ
offset zero = 0
offset (suc n) = 8 + offset n

-- What f64 is relied on for: eight bytes that read back, and -1.0 below 0.0, where no clamped target is.
pub record IsFaithful {R : Type 0} (F : F64 R) : Type 0 where
  pub width : (v : R) → length (F.to_le_bytes v) ≡ 8
  pub inverse : (v : R) → F.from_le_bytes (F.to_le_bytes v) ≡ v
  pub minus_one : F.lt (F.neg (F.ratio 1 1)) (F.ratio 0 1) ≡ true
  pub clamped : (v : R) → F.lt (F.clamp v (F.ratio 0 1) (F.ratio 1 1)) (F.ratio 0 1) ≡ false

module _ {R : Type 0} (F : F64 R) where
  abbrev pub is_target : Option R → Bool
  is_target none = true
  is_target (some t) = not (F.lt t (F.ratio 0 1))

  abbrev pub has_targets : PongGame R → Bool
  has_targets g = is_target g.left_target && is_target g.right_target

  module _ (f : IsFaithful F) where
    drop-bytes_of :
        (n : ℕ) (vs : List R) (rest : List ℕ)
        → n ≤ length vs
        → drop (offset n) (bytes_of F vs rest) ≡ bytes_of F (drop n vs) rest
    drop-bytes_of zero vs rest few = refl
    drop-bytes_of (suc n) [] rest few = absurd (omega (arith, few))
    drop-bytes_of (suc n) (v ∷ vs) rest few =
        drop-append 8 (offset n) (F.to_le_bytes v) (bytes_of F vs rest) (f.width v)
        ∙ drop-bytes_of n vs rest (omega (arith, few))

    value_of :
        (v : R) (vs : List R) (rest : List ℕ)
        → F.from_le_bytes (take 8 (bytes_of F (v ∷ vs) rest)) ≡ v
    value_of v vs rest =
        ap F.from_le_bytes (take-append 8 (F.to_le_bytes v) (bytes_of F vs rest) (f.width v))
        ∙ f.inverse v

    target_of-get_or :
        (o : Option R) → is_target o ≡ true → target_of F (Option.get_or o (no_target F)) ≡ o
    target_of-get_or none ok = rw (f.minus_one) refl
    target_of-get_or (some t) ok = ground arith

    value_at-bytes_of :
        (n : ℕ) (all : List R) (rest : List ℕ) (v : R) (vs : List R)
        → n ≤ length all
        → drop n all ≡ v ∷ vs
        → 8 * n ≡ offset n
        → value_at F n (bytes_of F all rest) ≡ v
    value_at-bytes_of n all rest v vs few there eight =
        ap (λ k. F.from_le_bytes (take 8 (drop k (bytes_of F all rest)))) eight
        ∙ ap (λ b. F.from_le_bytes (take 8 b))
            (drop-bytes_of n all rest few ∙ ap (λ xs. bytes_of F xs rest) there)
        ∙ value_of v vs rest

    module _ (g : PongGame R) where
      abbrev scores : List ℕ
      scores = g.left_score ∷ g.right_score ∷ []

      abbrev tail_from : ℕ → List R
      tail_from n = drop n (numbers F g)

      value :
          (n : ℕ) (v : R)
          → suc n ≤ 9
          → tail_from n ≡ v ∷ tail_from (suc n)
          → 8 * n ≡ offset n
          → value_at F n (bytes_of F (numbers F g) scores) ≡ v
      value n v few there eight =
          value_at-bytes_of n (numbers F g) scores v (tail_from (suc n)) (omega arith) there eight

      left_byte : byte_at (drop 72 (bytes_of F (numbers F g) scores)) ≡ g.left_score
      left_byte = ap byte_at (drop-bytes_of 9 (numbers F g) scores (omega arith))

      right_byte : byte_at (drop 73 (bytes_of F (numbers F g) scores)) ≡ g.right_score
      right_byte = ap byte_at (
          drop_add 72 1 (bytes_of F (numbers F g) scores)
          ∙ ap (drop 1) (drop-bytes_of 9 (numbers F g) scores (omega arith)))

      -- A game whose targets are at 0.0 or above is restored from its serialised state.
      pub restore-full_state : has_targets g ≡ true → restore F (full_state F g) ≡ g
      unfolding restore full_state
      restore-full_state ok =
          rw
            (
              value 0 g.left_y (omega arith) refl refl,
              value 1 g.right_y (omega arith) refl refl,
              value 2 g.ball_x (omega arith) refl refl,
              value 3 g.ball_y (omega arith) refl refl,
              value 4 g.ball_vx (omega arith) refl refl,
              value 5 g.ball_vy (omega arith) refl refl,
              value 6 g.speed (omega arith) refl refl,
              value 7 (Option.get_or g.left_target (no_target F)) (omega arith) refl refl,
              value 8 (Option.get_or g.right_target (no_target F)) (omega arith) refl refl,
              left_byte,
              right_byte,
              target_of-get_or g.left_target (ground arith),
              target_of-get_or g.right_target (ground arith),
            )
            refl
