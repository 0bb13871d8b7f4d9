-- ===== src/Shipment/Tests.antt =====
-- Forms of shipments.
use project_tracker.Prelude.{String, ◌≡◌, refl, List, [], ◌∷◌}
use project_tracker.Prelude.Text.{replace_all}
use project_tracker.Prelude.Text.Space.{trim_space, trim_right, trim_left, is_space, cons_trimmed}
use project_tracker.Shipment.Form.{parse_serials, kept_parts, split_lines}

abbrev three_keys : List String
three_keys = "a" ∷ "b" ∷ "a" ∷ []

-- Commas and both kinds of line ends separate serials.
serials_run : parse_serials "SN-1, SN-2\r\nSN-3\n" ≡ "SN-1" ∷ "SN-2" ∷ "SN-3" ∷ []
unfolding parse_serials kept_parts split_lines replace_all trim_space trim_right trim_left is_space
    cons_trimmed
serials_run = refl
