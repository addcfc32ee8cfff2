-- ===== src/Tiers/Promotion.antt =====
-- The tier against the thresholds of the table of docs/tier-promotion.md.
use scout_off_backend.Prelude.{ℕ, ◌≤◌, ◌↔◌, arith}
use scout_off_backend.Tiers.{tier_for_approved_milestones, first_match}

-- A player has at least tier 1, 2, 3 exactly from 1, 3, 6 approved milestones on, never more than
-- tier 3, and never a lower tier with more approved milestones.
pub tier_for_approved_milestones-promotes :
    (n m : ℕ)
    → n ≤ m
    → ((1 ≤ tier_for_approved_milestones n) ↔ (1 ≤ n))
      × ((2 ≤ tier_for_approved_milestones n) ↔ (3 ≤ n))
      × ((3 ≤ tier_for_approved_milestones n) ↔ (6 ≤ n))
      × (tier_for_approved_milestones n ≤ 3)
      × (tier_for_approved_milestones n ≤ tier_for_approved_milestones m)
unfolding tier_for_approved_milestones first_match
tier_for_approved_milestones-promotes n m h =
    (ground arith, ground arith, ground arith, ground arith, ground (arith, h))
