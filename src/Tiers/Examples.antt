-- ===== src/Tiers/Examples.antt =====
-- The thresholds at two counts.
use scout_off_backend.Prelude.{◌≡◌, refl}
use scout_off_backend.Tiers.{tier_for_approved_milestones, first_match}

two_tiers : tier_for_approved_milestones 5 ≡ 2
unfolding tier_for_approved_milestones first_match
two_tiers = refl
