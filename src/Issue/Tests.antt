-- ===== src/Issue/Tests.antt =====
-- Issuing, on a store in memory.
use project_tracker.Prelude.{◌≡◌, ◌≢◌, refl, true, [], ◌∷◌, length, arith}
use project_tracker.Prelude.Text.Space.{trim_space, trim_right, trim_left, is_space, cons_trimmed}
use project_tracker.Serials.{validate_serials}
use project_tracker.Prelude.Int.{pos}
use project_tracker.Prelude.Exec.{ok, err}
use project_tracker.Store.Memory.{MemDb}
use project_tracker.Store.Memory.Lawful.{memory-Laws}
use project_tracker.Services.{serial_in_use}
use project_tracker.Store.Samples.{june, every, app, line, stock}
use project_tracker.Issue.{issue_shipment_group}
use project_tracker.Issue.Validate.{
  validate_dc_serials, check_line_item, serials_of, requires_serials, this_dc_serials,
}
use project_tracker.Issue.Tracked.{validate_dc_serials-HasSerials}
use project_tracker.Issue.Duplicates.{validate_dc_serials-other}

issued_stock : MemDb
issued_stock = (issue_shipment_group app "g1" stock).1

validated_run : validate_dc_serials app "d3" "p1" stock ≡ ok tt
unfolding validate_dc_serials check_line_item requires_serials serials_of validate_serials
    trim_space trim_right trim_left is_space cons_trimmed
validated_run = refl

required_run : requires_serials app (line "l2" "d3") stock ≡ true
unfolding requires_serials
required_run = refl

validate_dc_serials-HasSerials_example :
    pos (length (serials_of app (line "l2" "d3") stock)) ≡ pos 1
validate_dc_serials-HasSerials_example =
    validate_dc_serials-HasSerials app (memory-Laws every june) "d3" "p1" stock validated_run "l2"
      (line "l2" "d3") refl refl required_run (omega arith)

-- The transfer's serial is in use by the group's transit challan, and that is not reported.
validate_dc_serials-other_example :
    validate_dc_serials app "d3" "p1" stock ≢ err (serial_in_use "SN-1" "d1")
unfolding this_dc_serials serials_of trim_space trim_right trim_left is_space cons_trimmed
validate_dc_serials-other_example =
    validate_dc_serials-other app "d3" "p1" stock (line "l2" "d3" ∷ []) refl (refl, tt) "SN-1" "d1"
