-- ===== src/Tiers.antt =====
-- The tier of a player: src/services/tierPromotion.ts.
mod Promotion
mod Examples
use scout_off_backend.Prelude.{ℕ, List, [], ◌∷◌, leb, if◌then◌else◌}

pub record TierThreshold : Type 0 where
  pub tier : ℕ
  pub min_approved_milestones : ℕ

abbrev pub tier_thresholds : List TierThreshold
tier_thresholds =
    record { tier = 3; min_approved_milestones = 6 }
    ∷ record { tier = 2; min_approved_milestones = 3 }
    ∷ record { tier = 1; min_approved_milestones = 1 }
    ∷ record { tier = 0; min_approved_milestones = 0 }
    ∷ []

-- The loop over the thresholds, 0 after the last of them.
unfoldable pub first_match : ℕ → List TierThreshold → ℕ
first_match count [] = 0
first_match count (t ∷ ts) =
    let rest = first_match count ts in if leb t.min_approved_milestones count then t.tier else rest

-- A count is a natural number, as the database gives it: the clamp changes nothing.
unfoldable pub tier_for_approved_milestones : ℕ → ℕ
unfolding first_match
tier_for_approved_milestones count = first_match count tier_thresholds
