-- ===== src/Store/Memory/Db.antt =====
-- A database in memory: one table for each collection.
use project_tracker.Prelude.{String, ◌≡◌, ◌≢◌, refl, List, []}
use project_tracker.Store.Schema.{
  Collection, Row, row_id, with_id, Project, NumberSequence, DcTemplateItem, TransporterVehicle,
  ShipmentGroup, DeliveryChallan, DcLineItem, SerialNumber, DcTransitDetail, TransferDc,
  TransferDcDestination, TransferDcDestQuantity, TransferDcSplit, Boq, MainBoqItem, SubItem,
  SubSubItem, AddressConfig, Address, ProjectAddressSetting, Vendor, ProjectVendor, PurchaseOrder,
  PoLineItem, Transporter, projects, number_sequences, dc_template_items, transporter_vehicles,
  shipment_groups, delivery_challans, dc_line_items, serial_numbers, dc_transit_details,
  transfer_dcs, transfer_dc_destinations, transfer_dc_dest_quantities, transfer_dc_splits, boqs,
  main_boq_items, sub_items, sub_sub_items, address_configs, addresses, project_address_settings,
  vendors, project_vendors, purchase_orders, po_line_items, transporters,
}

pub record MemDb : Type 0 where
  pub projects_rows : List Project
  pub number_sequences_rows : List NumberSequence
  pub dc_template_items_rows : List DcTemplateItem
  pub transporter_vehicles_rows : List TransporterVehicle
  pub shipment_groups_rows : List ShipmentGroup
  pub delivery_challans_rows : List DeliveryChallan
  pub dc_line_items_rows : List DcLineItem
  pub serial_numbers_rows : List SerialNumber
  pub dc_transit_details_rows : List DcTransitDetail
  pub transfer_dcs_rows : List TransferDc
  pub transfer_dc_destinations_rows : List TransferDcDestination
  pub transfer_dc_dest_quantities_rows : List TransferDcDestQuantity
  pub transfer_dc_splits_rows : List TransferDcSplit
  pub boqs_rows : List Boq
  pub main_boq_items_rows : List MainBoqItem
  pub sub_items_rows : List SubItem
  pub sub_sub_items_rows : List SubSubItem
  pub address_configs_rows : List AddressConfig
  pub addresses_rows : List Address
  pub project_address_settings_rows : List ProjectAddressSetting
  pub vendors_rows : List Vendor
  pub project_vendors_rows : List ProjectVendor
  pub purchase_orders_rows : List PurchaseOrder
  pub po_line_items_rows : List PoLineItem
  pub transporters_rows : List Transporter

abbrev pub table : (c : Collection) → MemDb → List (Row c)
table projects db = db.projects_rows
table number_sequences db = db.number_sequences_rows
table dc_template_items db = db.dc_template_items_rows
table transporter_vehicles db = db.transporter_vehicles_rows
table shipment_groups db = db.shipment_groups_rows
table delivery_challans db = db.delivery_challans_rows
table dc_line_items db = db.dc_line_items_rows
table serial_numbers db = db.serial_numbers_rows
table dc_transit_details db = db.dc_transit_details_rows
table transfer_dcs db = db.transfer_dcs_rows
table transfer_dc_destinations db = db.transfer_dc_destinations_rows
table transfer_dc_dest_quantities db = db.transfer_dc_dest_quantities_rows
table transfer_dc_splits db = db.transfer_dc_splits_rows
table boqs db = db.boqs_rows
table main_boq_items db = db.main_boq_items_rows
table sub_items db = db.sub_items_rows
table sub_sub_items db = db.sub_sub_items_rows
table address_configs db = db.address_configs_rows
table addresses db = db.addresses_rows
table project_address_settings db = db.project_address_settings_rows
table vendors db = db.vendors_rows
table project_vendors db = db.project_vendors_rows
table purchase_orders db = db.purchase_orders_rows
table po_line_items db = db.po_line_items_rows
table transporters db = db.transporters_rows

abbrev pub put_table : (c : Collection) → List (Row c) → MemDb → MemDb
put_table projects rows db = record db { projects_rows = rows }
put_table number_sequences rows db = record db { number_sequences_rows = rows }
put_table dc_template_items rows db = record db { dc_template_items_rows = rows }
put_table transporter_vehicles rows db = record db { transporter_vehicles_rows = rows }
put_table shipment_groups rows db = record db { shipment_groups_rows = rows }
put_table delivery_challans rows db = record db { delivery_challans_rows = rows }
put_table dc_line_items rows db = record db { dc_line_items_rows = rows }
put_table serial_numbers rows db = record db { serial_numbers_rows = rows }
put_table dc_transit_details rows db = record db { dc_transit_details_rows = rows }
put_table transfer_dcs rows db = record db { transfer_dcs_rows = rows }
put_table transfer_dc_destinations rows db = record db { transfer_dc_destinations_rows = rows }
put_table transfer_dc_dest_quantities rows db = record db {
  transfer_dc_dest_quantities_rows = rows;
}
put_table transfer_dc_splits rows db = record db { transfer_dc_splits_rows = rows }
put_table boqs rows db = record db { boqs_rows = rows }
put_table main_boq_items rows db = record db { main_boq_items_rows = rows }
put_table sub_items rows db = record db { sub_items_rows = rows }
put_table sub_sub_items rows db = record db { sub_sub_items_rows = rows }
put_table address_configs rows db = record db { address_configs_rows = rows }
put_table addresses rows db = record db { addresses_rows = rows }
put_table project_address_settings rows db = record db { project_address_settings_rows = rows }
put_table vendors rows db = record db { vendors_rows = rows }
put_table project_vendors rows db = record db { project_vendors_rows = rows }
put_table purchase_orders rows db = record db { purchase_orders_rows = rows }
put_table po_line_items rows db = record db { po_line_items_rows = rows }
put_table transporters rows db = record db { transporters_rows = rows }

abbrev pub empty_db : MemDb
empty_db = record {
  projects_rows = [];
  number_sequences_rows = [];
  dc_template_items_rows = [];
  transporter_vehicles_rows = [];
  shipment_groups_rows = [];
  delivery_challans_rows = [];
  dc_line_items_rows = [];
  serial_numbers_rows = [];
  dc_transit_details_rows = [];
  transfer_dcs_rows = [];
  transfer_dc_destinations_rows = [];
  transfer_dc_dest_quantities_rows = [];
  transfer_dc_splits_rows = [];
  boqs_rows = [];
  main_boq_items_rows = [];
  sub_items_rows = [];
  sub_sub_items_rows = [];
  address_configs_rows = [];
  addresses_rows = [];
  project_address_settings_rows = [];
  vendors_rows = [];
  project_vendors_rows = [];
  purchase_orders_rows = [];
  po_line_items_rows = [];
  transporters_rows = [];
}

pub table-put_self :
    (c : Collection) (rows : List (Row c)) (db : MemDb) → table c (put_table c rows db) ≡ rows
table-put_self projects rows db = refl
table-put_self _ rows db = refl

pub table-put_ne :
    (c d : Collection) (rows : List (Row c)) (db : MemDb)
    → d ≢ c
    → table d (put_table c rows db) ≡ table d db
table-put_ne projects projects rows db ne = absurd (ne refl)
table-put_ne number_sequences number_sequences rows db ne = absurd (ne refl)
table-put_ne dc_template_items dc_template_items rows db ne = absurd (ne refl)
table-put_ne transporter_vehicles transporter_vehicles rows db ne = absurd (ne refl)
table-put_ne shipment_groups shipment_groups rows db ne = absurd (ne refl)
table-put_ne delivery_challans delivery_challans rows db ne = absurd (ne refl)
table-put_ne dc_line_items dc_line_items rows db ne = absurd (ne refl)
table-put_ne serial_numbers serial_numbers rows db ne = absurd (ne refl)
table-put_ne dc_transit_details dc_transit_details rows db ne = absurd (ne refl)
table-put_ne transfer_dcs transfer_dcs rows db ne = absurd (ne refl)
table-put_ne transfer_dc_destinations transfer_dc_destinations rows db ne = absurd (ne refl)
table-put_ne transfer_dc_dest_quantities transfer_dc_dest_quantities rows db ne = absurd (ne refl)
table-put_ne transfer_dc_splits transfer_dc_splits rows db ne = absurd (ne refl)
table-put_ne boqs boqs rows db ne = absurd (ne refl)
table-put_ne main_boq_items main_boq_items rows db ne = absurd (ne refl)
table-put_ne sub_items sub_items rows db ne = absurd (ne refl)
table-put_ne sub_sub_items sub_sub_items rows db ne = absurd (ne refl)
table-put_ne address_configs address_configs rows db ne = absurd (ne refl)
table-put_ne addresses addresses rows db ne = absurd (ne refl)
table-put_ne project_address_settings project_address_settings rows db ne = absurd (ne refl)
table-put_ne vendors vendors rows db ne = absurd (ne refl)
table-put_ne project_vendors project_vendors rows db ne = absurd (ne refl)
table-put_ne purchase_orders purchase_orders rows db ne = absurd (ne refl)
table-put_ne po_line_items po_line_items rows db ne = absurd (ne refl)
table-put_ne transporters transporters rows db ne = absurd (ne refl)
table-put_ne _ _ rows db ne = refl

pub row_id-with_id : (c : Collection) (i : String) (r : Row c) → row_id c (with_id c i r) ≡ i
row_id-with_id projects i r = refl
row_id-with_id _ i r = refl
