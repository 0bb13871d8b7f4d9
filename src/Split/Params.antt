-- ===== src/Split/Params.antt =====
-- services/dc_split.go: the form of a split, its result, and what is gathered for a line item.
-- A map from texts is an association list, the latest write first.
use project_tracker.Prelude.{String, if◌then◌else◌, none, some, List, lookup}
use project_tracker.Prelude.Int.{ℤ, pos, leb_ℤ}
use project_tracker.Store.Schema.{Float64, DcStatus}
use project_tracker.Challans.{Transport}

-- `SplitParams`; the project of the form is not read.
pub record SplitParams : Type 0 where
  pub project_id : String
  pub transfer_dc_id : String
  pub destination_ids : List String
  pub transport : Transport
  pub serial_assignments : List (String × List String)

-- `SplitResult`
pub record SplitResult : Type 0 where
  pub split_id : String
  pub shipment_group_id : String
  pub transit_dc_id : String
  pub transit_dc_number : String
  pub official_dc_ids : List String
  pub official_dc_nums : List String

-- What is gathered for a line item of the transfer challan.
pub record ItemQtyInfo : Type 0 where
  pub source_item_type : String
  pub source_item_id : String
  pub rate : Float64
  pub tax_percentage : Float64
  pub total_qty : ℤ
  pub per_dest_qty : List (String × ℤ)
  pub line_order : ℤ
  pub parent_line_id : String

-- `info.PerDestQty[destID]`
unfoldable pub qty_at : String → List (String × ℤ) → ℤ
qty_at dest_id m = elim (lookup dest_id m) [ none ↦ pos 0 | some q ↦ q ]

-- The status of the parent challan after a split.
unfoldable pub progress_status : ℤ → ℤ → DcStatus
progress_status num_split num_dest =
    if leb_ℤ num_dest num_split then DcStatus.split else DcStatus.splitting
