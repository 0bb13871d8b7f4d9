-- ===== src/Challans.antt =====
-- What services/dc_creation.go and services/dc_split.go write in the same words: challans, priced
-- line items, serial numbers and transit details. A relation set to the empty text is one that was
-- not set, so `if x != "" { rec.Set("f", x) }` is a plain assignment here.
use project_tracker.Prelude.{String, Bool, not, ◌==◌, ◌&&◌, if◌then◌else◌, Option, none, some, List}
use project_tracker.Prelude.Int.{ℤ}
use project_tracker.Prelude.Exec.{Exec, ◌>>=◌, ◌>>◌, pure, throw_if, gets, attempt, for_each}
use project_tracker.Store.Schema.{
  Float64, Collection, Row, DcType, DcStatus, DeliveryChallan, DcLineItem, DcTransitDetail,
  serial_numbers, transporter_vehicles,
}
use project_tracker.Store.App.{App}
use project_tracker.Services.{Error, collection_not_found, create_failed, save_serial_failed}

-- The addresses and the template that the challans of one workflow share.
pub record Header : Type 0 where
  pub project : String
  pub template : String
  pub bill_from : String
  pub dispatch_from : String
  pub bill_to : String
  pub challan_date : String
  pub group : String

-- A new draft challan; `issued_at` is not set.
unfoldable pub new_challan : Header → DcType → String → String → DeliveryChallan
new_challan h kind number ship_to = record {
  id = "";
  project = h.project;
  dc_number = number;
  dc_type = kind;
  status = DcStatus.draft;
  template = h.template;
  bill_from_address = h.bill_from;
  dispatch_from_address = h.dispatch_from;
  bill_to_address = h.bill_to;
  ship_to_address = ship_to;
  challan_date = h.challan_date;
  issued_at = "";
  shipment_group = h.group;
}

-- The transporter's part of a form.
pub record Transport : Type 0 where
  pub transporter_id : String
  pub vehicle_id : String
  pub eway_bill_number : String
  pub docket_number : String

module _ (app : App) where
  open app use {Db, has_collection, find_record_by_id, save}

  -- `app.FindCollectionByNameOrId(c)`, its error returned.
  unfoldable pub require_collection : Collection → Exec Db Error (Unit {0})
  require_collection c = do
    known ← gets (has_collection c)
    throw_if (not known) (collection_not_found c)

  -- `app.Save(rec)` for a new record, its error returned.
  abbrev pub create : (c : Collection) → Row c → Exec Db Error (Row c)
  create c r = attempt (create_failed c) (save c r)

  -- A line item with its price: `rate * float64(qty)`, then the tax on it, then the sum.
  unfoldable pub priced_item : String → String → String → ℤ → Float64 → Float64 → ℤ → DcLineItem
  priced_item dc item_type item_id qty rate tax order =
      let taxable = app.float_mul rate (app.float_of_int qty) in
      let tax_amount = app.float_div_100 (app.float_mul taxable tax) in
      record {
        id = "";
        dc = dc;
        source_item_type = item_type;
        source_item_id = item_id;
        quantity = qty;
        rate = rate;
        tax_percentage = tax;
        taxable_amount = taxable;
        tax_amount = tax_amount;
        total_amount = app.float_add taxable tax_amount;
        line_order = order;
      }

  -- A line item of an official challan, without prices.
  unfoldable pub plain_item : String → String → String → ℤ → ℤ → DcLineItem
  plain_item dc item_type item_id qty order = record {
    id = "";
    dc = dc;
    source_item_type = item_type;
    source_item_id = item_id;
    quantity = qty;
    rate = app.float_zero;
    tax_percentage = app.float_zero;
    taxable_amount = app.float_zero;
    tax_amount = app.float_zero;
    total_amount = app.float_zero;
    line_order = order;
  }

  unfoldable pub save_serials : String → String → List String → Exec Db Error (Unit {0})
  unfolding for_each
  save_serials project line_item serials = for_each serials (λ serial.
      attempt (save_serial_failed serial) (
        save serial_numbers
          (record { id = ""; project = project; line_item = line_item; serial_number = serial }))
      >> pure tt)

  number_of_vehicle : Option (Row transporter_vehicles) → String
  number_of_vehicle none = ""
  number_of_vehicle (some v) = v.vehicle_number

  -- The vehicle's number, or the empty text if no vehicle is given or it is not found.
  unfoldable pub vehicle_number : String → Db → String
  unfolding number_of_vehicle
  vehicle_number vehicle_id db =
      if vehicle_id == ""
      then ""
      else number_of_vehicle (find_record_by_id transporter_vehicles vehicle_id db)

  -- Is there a transporter, an e-way bill or a docket to record?
  unfoldable pub has_transport : Transport → Bool
  has_transport t =
      not (t.transporter_id == "" && (t.eway_bill_number == "" && t.docket_number == ""))

  abbrev pub transit_detail : String → String → Transport → DcTransitDetail
  transit_detail dc vehicle t = record {
    id = "";
    dc = dc;
    transporter = t.transporter_id;
    vehicle_number = vehicle;
    eway_bill_number = t.eway_bill_number;
    docket_number = t.docket_number;
  }
