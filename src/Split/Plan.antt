-- ===== src/Split/Plan.antt =====
-- `CreateSplit` of services/dc_split.go, steps 5 to 7: the quantities and the child group.
use project_tracker.Prelude.{String, ◌==◌, ◌&&◌, if◌then◌else◌, none, some, List, [], ◌∷◌, length}
use project_tracker.Prelude.Int.{pos, ◌+ℤ◌, ltb_ℤ}
use project_tracker.Prelude.Exec.{Exec, ◌>>◌}
use project_tracker.Store.Schema.{
  GroupStatus, DeliveryChallan, TransferDc, ShipmentGroup, DcLineItem, transfer_dc_destinations,
  transfer_dc_dest_quantities, shipment_groups,
}
use project_tracker.Store.App.{App, Date}
use project_tracker.Store.Status.{or_empty}
use project_tracker.Services.{Error}
use project_tracker.Challans.{Header, require_collection, create}
use project_tracker.Split.Params.{ItemQtyInfo}

module _ (app : App) where
  open app use {Db, has_collection, find_record_by_id, find_records_by_filter, save}

  -- The inner loop of step 5, over the destinations.
  unfoldable pub gather : Db → List String → ItemQtyInfo → ItemQtyInfo
  gather db [] info = info
  gather db (dest_id ∷ dests) info =
      gather db dests
        (elim (or_empty (
          find_records_by_filter transfer_dc_dest_quantities
            (λ q.
              q.destination == dest_id
              && (q.source_item_type == info.source_item_type
                  && q.source_item_id == info.source_item_id))
            "" 1 db)) [
              | [] ↦ info
              | q ∷ rest ↦ record info {
                per_dest_qty = (dest_id, q.quantity) ∷ info.per_dest_qty;
                total_qty = info.total_qty +ℤ q.quantity;
              }
            ])

  abbrev pub blank_info : DcLineItem → ItemQtyInfo
  blank_info li = record {
    source_item_type = li.source_item_type;
    source_item_id = li.source_item_id;
    rate = li.rate;
    tax_percentage = li.tax_percentage;
    total_qty = pos 0;
    per_dest_qty = [];
    line_order = li.line_order;
    parent_line_id = li.id;
  }

  -- Step 5: the line items with a positive quantity for the destinations together.
  unfoldable pub item_infos : Db → List String → List DcLineItem → List ItemQtyInfo
  item_infos db dests [] = []
  item_infos db dests (li ∷ items) =
      let info = gather db dests (blank_info li) in
      let rest = item_infos db dests items in
      if ltb_ℤ (pos 0) info.total_qty then info ∷ rest else rest

  -- The challan's date, or today.
  unfoldable pub doc_date : DeliveryChallan → Date
  doc_date dc =
      if dc.challan_date == ""
      then app.today
      else elim (app.parse_date dc.challan_date) [ none ↦ app.today | some t ↦ t ]

  -- Step 7
  unfoldable pub create_child_group :
      DeliveryChallan → TransferDc → List String → Exec Db Error ShipmentGroup
  create_child_group dc transfer dests = do
    require_collection app shipment_groups
    create app shipment_groups (record {
      id = "";
      project = dc.project;
      template = dc.template;
      num_locations = pos (length dests);
      tax_type = transfer.tax_type;
      reverse_charge = transfer.reverse_charge;
      status = GroupStatus.draft;
      transfer_dc = transfer.id;
      split = "";
    })

  unfoldable pub header_of : DeliveryChallan → ShipmentGroup → Header
  header_of dc sg = record {
    project = dc.project;
    template = dc.template;
    bill_from = dc.bill_from_address;
    dispatch_from = dc.dispatch_from_address;
    bill_to = dc.bill_to_address;
    challan_date = app.format_date (doc_date dc);
    group = sg.id;
  }

  -- The address of the first destination.
  unfoldable pub primary_address : List String → Db → String
  primary_address [] db = ""
  primary_address (dest_id ∷ rest) db =
      elim (find_record_by_id transfer_dc_destinations dest_id db) [
        | none ↦ ""
        | some dest ↦ dest.ship_to_address
      ]
