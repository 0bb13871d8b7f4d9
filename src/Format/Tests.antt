-- ===== src/Format/Tests.antt =====
-- Grouping, on an amount.
use project_tracker.Prelude.{◌≡◌, refl}
use project_tracker.Format.{apply_indian_grouping, group_remaining}
use project_tracker.Format.Grouping.{with_commas, apply_indian_grouping-with_commas}

grouping_example : apply_indian_grouping "12345678" ≡ "1,23,45,678"
unfolding apply_indian_grouping group_remaining
grouping_example = refl

apply_indian_grouping-with_commas_example :
    apply_indian_grouping "12345678" ≡ with_commas "12345678"
apply_indian_grouping-with_commas_example = apply_indian_grouping-with_commas "12345678"
