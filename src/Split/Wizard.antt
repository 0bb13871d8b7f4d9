-- ===== src/Split/Wizard.antt =====
-- handlers/split_wizard.go: HandleSplitCreate and HandleSplitUndo, which read the form and call
-- CreateSplit and UndoSplit.
use project_tracker.Prelude.{String, ◌==◌, if◌then◌else◌, List, [], ◌∷◌}
use project_tracker.Prelude.Text.{◌<>◌}
use project_tracker.Prelude.Text.Space.{trim_space}
use project_tracker.Prelude.Exec.{Exec, ◌>>=◌, gets}
use project_tracker.Store.Schema.{DcLineItem, dc_line_items}
use project_tracker.Store.App.{App}
use project_tracker.Store.Status.{or_empty}
use project_tracker.Services.{Error}
use project_tracker.Shipment.Form.{Form, get_val, values, parse_serials}
use project_tracker.Split.Params.{SplitParams, SplitResult}
use project_tracker.Split.Create.{create_split}
use project_tracker.Split.Undo.{undo_split}

-- The serials of the form for a line item, separated by line ends and commas.
unfoldable pub serials_of_line : Form → DcLineItem → List String
serials_of_line form li =
    let raw = trim_space (get_val form ("serials_" <> li.id)) in
    if raw == "" then [] else parse_serials raw

-- `if len(serials) > 0 { serialAssignments[li.Id] = serials }`
abbrev pub assign : String → List String → List (String × List String) → List (String × List String)
assign i [] assigned = assigned
assign i (s ∷ serials) assigned = (i, s ∷ serials) ∷ assigned

-- The loop over the line items.
unfoldable pub serial_assignments_from :
    Form → List DcLineItem → List (String × List String) → List (String × List String)
unfolding serials_of_line
serial_assignments_from form [] assigned = assigned
serial_assignments_from form (li ∷ lis) assigned =
    serial_assignments_from form lis (assign li.id (serials_of_line form li) assigned)

abbrev pub trimmed_field : Form → String → String
trimmed_field form name = trim_space (get_val form name)

unfoldable pub split_params : (project_id dc_id : String) → Form → List DcLineItem → SplitParams
unfolding serial_assignments_from
split_params project_id dc_id form lis = record {
  project_id = project_id;
  transfer_dc_id = dc_id;
  destination_ids = values "destination_ids" form;
  transport = record {
    transporter_id = trimmed_field form "transporter_id";
    vehicle_id = trimmed_field form "vehicle_id";
    eway_bill_number = trimmed_field form "eway_bill_number";
    docket_number = trimmed_field form "docket_number";
  };
  serial_assignments = serial_assignments_from form lis [];
}

module _ (app : App) where
  open app use {Db, find_records_by_filter}

  -- `HandleSplitCreate`
  unfoldable pub handle_split_create :
      (project_id dc_id : String) → Form → Exec Db Error SplitResult
  handle_split_create project_id dc_id form = do
    found ← gets (find_records_by_filter dc_line_items (λ li. li.dc == dc_id) "line_order" 0)
    create_split app (split_params project_id dc_id form (or_empty found))

  -- `HandleSplitUndo`; the project and the challan of the request are not looked at.
  unfoldable pub handle_split_undo : (project_id dc_id split_id : String) → Exec Db Error (Unit {0})
  handle_split_undo project_id dc_id split_id = undo_split app split_id
