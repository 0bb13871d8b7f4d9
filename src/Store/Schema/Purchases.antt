-- ===== src/Store/Schema/Purchases.antt =====
-- collections/setup.go: vendors and purchase orders.
use project_tracker.Prelude.{String}
use project_tracker.Prelude.Int.{ℤ}
use project_tracker.Store.Schema.Number.{Float64}

pub record Vendor : Type 0 where
  pub id : String
  pub name : String
  pub address_line_1 : String
  pub address_line_2 : String
  pub city : String
  pub state : String
  pub pin_code : String
  pub country : String
  pub gstin : String
  pub pan : String
  pub contact_name : String
  pub phone : String
  pub email : String
  pub website : String
  pub bank_beneficiary_name : String
  pub bank_name : String
  pub bank_account_no : String
  pub bank_ifsc : String
  pub bank_branch : String
  pub notes : String

pub record ProjectVendor : Type 0 where
  pub id : String
  pub project : String
  pub vendor : String

pub record PurchaseOrder : Type 0 where
  pub id : String
  pub project : String
  pub vendor : String
  pub po_number : String
  pub order_date : String
  pub quotation_ref : String
  pub ref_date : String
  pub bill_to_address : String
  pub ship_to_address : String
  pub payment_terms : String
  pub delivery_terms : String
  pub warranty_terms : String
  pub comments : String
  pub status : String

pub record PoLineItem : Type 0 where
  pub id : String
  pub purchase_order : String
  pub sort_order : ℤ
  pub description : String
  pub hsn_code : String
  pub qty : Float64
  pub uom : String
  pub rate : Float64
  pub gst_percent : Float64
  pub source_item_type : String
  pub source_item_id : String
