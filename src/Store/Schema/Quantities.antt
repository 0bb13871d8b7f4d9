-- ===== src/Store/Schema/Quantities.antt =====
-- collections/setup.go: bills of quantities, with their items on three levels.
use project_tracker.Prelude.{String}
use project_tracker.Prelude.Int.{ℤ}
use project_tracker.Store.Schema.Number.{Float64}

pub record Boq : Type 0 where
  pub id : String
  pub title : String
  pub reference_number : String
  pub project : String

pub record MainBoqItem : Type 0 where
  pub id : String
  pub boq : String
  pub sort_order : ℤ
  pub description : String
  pub qty : Float64
  pub uom : String
  pub unit_price : Float64
  pub quoted_price : Float64
  pub budgeted_price : Float64
  pub hsn_code : String
  pub gst_percent : Float64

pub record SubItem : Type 0 where
  pub id : String
  pub main_item : String
  pub sort_order : ℤ
  pub type_of : String
  pub description : String
  pub qty_per_unit : Float64
  pub uom : String
  pub unit_price : Float64
  pub budgeted_price : Float64
  pub hsn_code : String
  pub gst_percent : Float64

pub record SubSubItem : Type 0 where
  pub id : String
  pub sub_item : String
  pub sort_order : ℤ
  pub type_of : String
  pub description : String
  pub qty_per_unit : Float64
  pub uom : String
  pub unit_price : Float64
  pub budgeted_price : Float64
  pub hsn_code : String
  pub gst_percent : Float64
