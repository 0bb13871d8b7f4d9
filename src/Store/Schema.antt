-- ===== src/Store/Schema.antt =====
-- collections/setup.go: the collections of the program, a record type for each that the model uses. A relation field is the id of the other record, or the empty text. The fields
-- that PocketBase writes by itself (`created`, `updated`) are left out: no code reads them.
mod Number
mod Quantities
mod Addresses
mod Purchases
mod Transports
pub use Number.*
pub use Quantities.*
pub use Addresses.*
pub use Purchases.*
pub use Transports.*
use project_tracker.Prelude.{String, Bool}
use project_tracker.Prelude.Int.{ℤ}

pub data DcType : Type 0 where
  transit official transfer : DcType

pub data DcStatus : Type 0 where
  draft issued splitting split : DcStatus

pub data GroupStatus : Type 0 where
  draft issued : GroupStatus

pub data SerialTracking : Type 0 where
  untracked optional required : SerialTracking

pub record Project : Type 0 where
  pub id : String
  pub name : String
  pub client_name : String
  pub reference_number : String
  pub status : String
  pub ship_to_equals_install_at : Bool
  pub po_prefix : String
  pub po_number_format : String
  pub po_separator : String
  pub po_seq_padding : ℤ
  pub po_seq_start : ℤ
  pub dc_prefix : String
  pub dc_number_format : String
  pub dc_separator : String
  pub dc_seq_padding : ℤ
  pub dc_seq_start_tdc : ℤ
  pub dc_seq_start_odc : ℤ
  pub dc_seq_start_stdc : ℤ

pub record NumberSequence : Type 0 where
  pub id : String
  pub project : String
  pub sequence_type : String
  pub financial_year : String
  pub last_number : ℤ

pub record DcTemplateItem : Type 0 where
  pub id : String
  pub template : String
  pub source_item_type : String
  pub source_item_id : String
  pub default_quantity : ℤ
  pub serial_tracking : SerialTracking

pub record ShipmentGroup : Type 0 where
  pub id : String
  pub project : String
  pub template : String
  pub num_locations : ℤ
  pub tax_type : String
  pub reverse_charge : Bool
  pub status : GroupStatus
  pub transfer_dc : String
  pub split : String

pub record DeliveryChallan : Type 0 where
  pub id : String
  pub project : String
  pub dc_number : String
  pub dc_type : DcType
  pub status : DcStatus
  pub template : String
  pub bill_from_address : String
  pub dispatch_from_address : String
  pub bill_to_address : String
  pub ship_to_address : String
  pub challan_date : String
  pub issued_at : String
  pub shipment_group : String

pub record DcLineItem : Type 0 where
  pub id : String
  pub dc : String
  pub source_item_type : String
  pub source_item_id : String
  pub quantity : ℤ
  pub rate : Float64
  pub tax_percentage : Float64
  pub taxable_amount : Float64
  pub tax_amount : Float64
  pub total_amount : Float64
  pub line_order : ℤ

pub record SerialNumber : Type 0 where
  pub id : String
  pub project : String
  pub line_item : String
  pub serial_number : String

pub record DcTransitDetail : Type 0 where
  pub id : String
  pub dc : String
  pub transporter : String
  pub vehicle_number : String
  pub eway_bill_number : String
  pub docket_number : String

pub record TransferDc : Type 0 where
  pub id : String
  pub dc : String
  pub hub_address : String
  pub template : String
  pub tax_type : String
  pub reverse_charge : Bool
  pub transporter : String
  pub vehicle_number : String
  pub eway_bill_number : String
  pub docket_number : String
  pub num_destinations : ℤ
  pub num_split : ℤ

pub record TransferDcDestination : Type 0 where
  pub id : String
  pub transfer_dc : String
  pub ship_to_address : String
  pub split_group : String
  pub is_split : Bool

pub record TransferDcDestQuantity : Type 0 where
  pub id : String
  pub destination : String
  pub source_item_type : String
  pub source_item_id : String
  pub quantity : ℤ

pub record TransferDcSplit : Type 0 where
  pub id : String
  pub transfer_dc : String
  pub shipment_group : String
  pub split_number : ℤ

pub data Collection : Type 0 where
  projects number_sequences dc_template_items transporter_vehicles : Collection
  shipment_groups delivery_challans dc_line_items serial_numbers : Collection
  dc_transit_details transfer_dcs transfer_dc_destinations : Collection
  transfer_dc_dest_quantities transfer_dc_splits : Collection
  boqs main_boq_items sub_items sub_sub_items address_configs addresses : Collection
  project_address_settings vendors project_vendors purchase_orders po_line_items : Collection
  transporters : Collection

abbrev pub Row : Collection → Type 0
Row projects = Project
Row number_sequences = NumberSequence
Row dc_template_items = DcTemplateItem
Row transporter_vehicles = TransporterVehicle
Row shipment_groups = ShipmentGroup
Row delivery_challans = DeliveryChallan
Row dc_line_items = DcLineItem
Row serial_numbers = SerialNumber
Row dc_transit_details = DcTransitDetail
Row transfer_dcs = TransferDc
Row transfer_dc_destinations = TransferDcDestination
Row transfer_dc_dest_quantities = TransferDcDestQuantity
Row transfer_dc_splits = TransferDcSplit
Row boqs = Boq
Row main_boq_items = MainBoqItem
Row sub_items = SubItem
Row sub_sub_items = SubSubItem
Row address_configs = AddressConfig
Row addresses = Address
Row project_address_settings = ProjectAddressSetting
Row vendors = Vendor
Row project_vendors = ProjectVendor
Row purchase_orders = PurchaseOrder
Row po_line_items = PoLineItem
Row transporters = Transporter

-- `record.Id`
abbrev pub row_id : (c : Collection) → Row c → String
row_id projects r = r.id
row_id number_sequences r = r.id
row_id dc_template_items r = r.id
row_id transporter_vehicles r = r.id
row_id shipment_groups r = r.id
row_id delivery_challans r = r.id
row_id dc_line_items r = r.id
row_id serial_numbers r = r.id
row_id dc_transit_details r = r.id
row_id transfer_dcs r = r.id
row_id transfer_dc_destinations r = r.id
row_id transfer_dc_dest_quantities r = r.id
row_id transfer_dc_splits r = r.id
row_id boqs r = r.id
row_id main_boq_items r = r.id
row_id sub_items r = r.id
row_id sub_sub_items r = r.id
row_id address_configs r = r.id
row_id addresses r = r.id
row_id project_address_settings r = r.id
row_id vendors r = r.id
row_id project_vendors r = r.id
row_id purchase_orders r = r.id
row_id po_line_items r = r.id
row_id transporters r = r.id

-- The record under another id: what a save does to a new record, whose id is empty.
abbrev pub with_id : (c : Collection) → String → Row c → Row c
with_id projects i r = record r { id = i }
with_id number_sequences i r = record r { id = i }
with_id dc_template_items i r = record r { id = i }
with_id transporter_vehicles i r = record r { id = i }
with_id shipment_groups i r = record r { id = i }
with_id delivery_challans i r = record r { id = i }
with_id dc_line_items i r = record r { id = i }
with_id serial_numbers i r = record r { id = i }
with_id dc_transit_details i r = record r { id = i }
with_id transfer_dcs i r = record r { id = i }
with_id transfer_dc_destinations i r = record r { id = i }
with_id transfer_dc_dest_quantities i r = record r { id = i }
with_id transfer_dc_splits i r = record r { id = i }
with_id boqs i r = record r { id = i }
with_id main_boq_items i r = record r { id = i }
with_id sub_items i r = record r { id = i }
with_id sub_sub_items i r = record r { id = i }
with_id address_configs i r = record r { id = i }
with_id addresses i r = record r { id = i }
with_id project_address_settings i r = record r { id = i }
with_id vendors i r = record r { id = i }
with_id project_vendors i r = record r { id = i }
with_id purchase_orders i r = record r { id = i }
with_id po_line_items i r = record r { id = i }
with_id transporters i r = record r { id = i }
