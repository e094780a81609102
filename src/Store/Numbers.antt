-- ===== src/Store/Numbers.antt =====
-- f64 arithmetic and the crate `skillratings`, which the code calls: parameters of the model.
use steam_lobby.Prelude.{ℕ, Bool}

-- skillratings::Outcomes
pub data Outcomes : Type 0 where
  win loss draw : Outcomes

-- skillratings::weng_lin::WengLinRating
pub record WengLinRating (R : Type 0) : Type 0 where
  pub rating : R
  pub uncertainty : R

pub record Numbers (R : Type 0) : Type 0 where
  -- the f64 of a whole number
  pub lit : ℕ → R
  pub add : R → R → R
  pub sub : R → R → R
  pub neg : R → R
  pub mul : R → R → R
  pub div : R → R → R
  pub floor : R → R
  pub min : R → R → R
  pub le : R → R → Bool
  pub lt : R → R → Bool
  -- `weng_lin(a, b, outcome, &WengLinConfig::default())`
  pub weng_lin : WengLinRating R → WengLinRating R → Outcomes → WengLinRating R × WengLinRating R
