-- ===== src/Store/Samples.antt =====
-- Records for trying the definitions out, and a store in memory that holds them.
use project_tracker.Prelude.{String, Bool, true, [], ◌∷◌}
use project_tracker.Prelude.Int.{ℤ, pos}
use project_tracker.Store.Schema.{
  Float64, DcType, DcStatus, GroupStatus, SerialTracking, DeliveryChallan, ShipmentGroup,
  DcLineItem, SerialNumber, DcTemplateItem, TransferDc, TransferDcDestination, TransferDcSplit,
  Project, delivery_challans, shipment_groups, dc_line_items, serial_numbers, dc_template_items,
  Collection, Row, transfer_dcs, projects, transfer_dc_destinations, transfer_dc_splits,
}
use project_tracker.Store.App.{App, Date}
use project_tracker.Store.Memory.{memory, MemDb, empty_db, put_table}

abbrev pub june : Date
june = record { year = 2025; month = 6; day = 10 }

abbrev pub every : (c : Collection) → Row c → Bool
every c r = true

abbrev pub app : App
app = memory every june

abbrev pub challan : String → DcType → String → DeliveryChallan
challan i kind group = record {
  id = i;
  project = "p1";
  dc_number = i;
  dc_type = kind;
  status = DcStatus.draft;
  template = "";
  bill_from_address = "";
  dispatch_from_address = "";
  bill_to_address = "";
  ship_to_address = "";
  challan_date = "2025-06-10";
  issued_at = "";
  shipment_group = group;
}

abbrev pub group_one : ShipmentGroup
group_one = record {
  id = "g1";
  project = "p1";
  template = "";
  num_locations = pos 1;
  tax_type = "igst";
  reverse_charge = true;
  status = GroupStatus.draft;
  transfer_dc = "";
  split = "";
}

abbrev pub project_one : Project
project_one = record {
  id = "p1";
  name = "Pumps";
  client_name = "";
  reference_number = "R1";
  status = "active";
  ship_to_equals_install_at = true;
  po_prefix = "";
  po_number_format = "";
  po_separator = "";
  po_seq_padding = pos 0;
  po_seq_start = pos 0;
  dc_prefix = "PT";
  dc_number_format = "";
  dc_separator = "";
  dc_seq_padding = pos 0;
  dc_seq_start_tdc = pos 7;
  dc_seq_start_odc = pos 0;
  dc_seq_start_stdc = pos 0;
}

abbrev pub zero_float : Float64
zero_float = record { bits = 0 }

abbrev pub line : String → String → DcLineItem
line i dc_id = record {
  id = i;
  dc = dc_id;
  source_item_type = "sub_item";
  source_item_id = "pump";
  quantity = pos 1;
  rate = zero_float;
  tax_percentage = zero_float;
  taxable_amount = zero_float;
  tax_amount = zero_float;
  total_amount = zero_float;
  line_order = pos 1;
}

abbrev pub serial : String → String → SerialNumber
serial i line_id = record { id = i; project = "p1"; line_item = line_id; serial_number = "SN-1" }

abbrev pub pump : DcTemplateItem
pump = record {
  id = "t1";
  template = "";
  source_item_type = "sub_item";
  source_item_id = "pump";
  default_quantity = pos 1;
  serial_tracking = SerialTracking.required;
}

-- A group of two challans and a transfer. The transit and the transfer have the same serial.
abbrev pub stock : MemDb
stock = put_table projects (project_one ∷ []) (
    put_table dc_template_items (pump ∷ []) (
      put_table serial_numbers (serial "s1" "l1" ∷ serial "s2" "l2" ∷ []) (
        put_table dc_line_items (line "l1" "d1" ∷ line "l2" "d3" ∷ []) (
          put_table shipment_groups (group_one ∷ []) (
            put_table delivery_challans
              (challan "d1" DcType.transit "g1"
                ∷ challan "d2" DcType.official "g1"
                ∷ challan "d3" DcType.transfer ""
                ∷ [])
              empty_db)))))

abbrev pub plan : ℤ → TransferDc
plan done = record {
  id = "x1";
  dc = "d3";
  hub_address = "";
  template = "";
  tax_type = "igst";
  reverse_charge = true;
  transporter = "";
  vehicle_number = "";
  eway_bill_number = "";
  docket_number = "";
  num_destinations = pos 2;
  num_split = done;
}

abbrev pub destination : String → TransferDcDestination
destination i = record {
  id = i;
  transfer_dc = "x1";
  ship_to_address = i;
  split_group = "";
  is_split = Bool.false;
}

abbrev pub first_split : TransferDcSplit
first_split = record { id = "y1"; transfer_dc = "x1"; shipment_group = "g1"; split_number = pos 1 }

-- The transfer has been issued, with two destinations, and a group stands for one split.
abbrev pub transfer_stock : MemDb
transfer_stock = put_table transfer_dc_splits (first_split ∷ []) (
    put_table transfer_dc_destinations (destination "n1" ∷ destination "n2" ∷ []) (
      put_table transfer_dcs (plan (pos 1) ∷ []) (
        put_table delivery_challans
          (record (challan "d3" DcType.transfer "") { status = DcStatus.issued } ∷ []) stock)))
