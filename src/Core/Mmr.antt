-- ===== src/Core/Mmr.antt =====
-- lobby-core/src/mmr.rs: the wrapper of the rating engine, which is a parameter.
use steam_lobby.Core.Types.{DateTime, OpenSkillRating}
use steam_lobby.Store.Numbers.{Numbers, Outcomes, WengLinRating}

pub data RatingOutcome : Type 0 where
  win loss draw : RatingOutcome

abbrev to_weng_lin : {R : Type 0} → OpenSkillRating R → WengLinRating R
to_weng_lin r = record { rating = r.mu; uncertainty = r.sigma }

abbrev of_weng_lin : {R : Type 0} → DateTime → WengLinRating R → OpenSkillRating R
of_weng_lin now r = record { mu = r.rating; sigma = r.uncertainty; last_updated = now }

abbrev to_outcomes : RatingOutcome → Outcomes
to_outcomes RatingOutcome.win = Outcomes.win
to_outcomes RatingOutcome.loss = Outcomes.loss
to_outcomes RatingOutcome.draw = Outcomes.draw

module _ {R : Type 0} (N : Numbers R) where
  unfoldable pub update_ratings :
      DateTime
      → OpenSkillRating R
      → OpenSkillRating R
      → Outcomes
      → OpenSkillRating R × OpenSkillRating R
  update_ratings now a b outcome =
      let (new_a, new_b) = N.weng_lin (to_weng_lin a) (to_weng_lin b) outcome in
      (of_weng_lin now new_a, of_weng_lin now new_b)

  unfoldable pub update_ratings_for_outcome :
      DateTime
      → OpenSkillRating R
      → OpenSkillRating R
      → RatingOutcome
      → OpenSkillRating R × OpenSkillRating R
  unfolding update_ratings
  update_ratings_for_outcome now a b outcome = update_ratings now a b (to_outcomes outcome)
