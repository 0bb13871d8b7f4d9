-- ===== src/Numbering/Format.antt =====
-- services/numbering.go: financial years, type codes and number formats.
use Prim.Native.Nat.{◌+◌, ◌%◌}
use project_tracker.Prelude.{String, ◌==◌, if◌then◌else◌, ltb}
use project_tracker.Prelude.Int.{ℤ, pos, negsuc, ◌+ℤ◌, ◌-ℤ◌}
use project_tracker.Prelude.Text.{◌<>◌, replace_all, format_padded}
use project_tracker.Store.App.{Date}

-- Go's `a % 100`: the sign of the result is that of `a`.
unfoldable pub rem_100 : ℤ → ℤ
rem_100 (pos n) = pos (n % 100)
rem_100 (negsuc n) = pos 0 -ℤ pos ((n + 1) % 100)

unfoldable pub start_year : Date → ℤ
start_year d = if ltb d.month 4 then pos d.year -ℤ pos 1 else pos d.year

-- `GetFinancialYear`
unfoldable pub get_financial_year : Date → String
unfolding start_year rem_100
get_financial_year d =
    format_padded (pos 2) (rem_100 (start_year d))
    <> format_padded (pos 2) (rem_100 (start_year d +ℤ pos 1))

unfoldable pub config_group_for_type : String → String
config_group_for_type seq_type = if seq_type == "po" then "po" else "dc"

module _ (to_upper : String → String) where
  unfoldable pub type_code : String → String
  type_code seq_type =
      if seq_type == "po"
      then "PO"
      else if seq_type == "tdc"
      then "TDC"
      else if seq_type == "odc"
      then "ODC"
      else if seq_type == "stdc"
      then "STDC"
      else to_upper seq_type

  unfoldable pub format_doc_number :
      (format sep prefix seq_type fy : String) (seq padding : ℤ) (proj_ref : String) → String
  format_doc_number format sep prefix seq_type fy seq padding proj_ref =
      let a = replace_all format "{PREFIX}" prefix in
      let b = replace_all a "{SEP}" sep in
      let c = replace_all b "{TYPE}" (type_code seq_type) in
      let d = replace_all c "{FY}" fy in
      let e = replace_all d "{SEQ}" (format_padded padding seq) in
      replace_all e "{PROJECT_REF}" proj_ref

abbrev pub default_format : String
default_format = "{PREFIX}{SEP}{TYPE}{SEP}{FY}{SEP}{SEQ}"
