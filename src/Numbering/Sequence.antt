-- ===== src/Numbering/Sequence.antt =====
-- `NextDocNumber` of services/numbering.go and `GeneratePONumber` of services/po_number.go.
use project_tracker.Prelude.{String, Bool, true, false, ◌==◌, ◌&&◌, if◌then◌else◌, List, [], ◌∷◌}
use project_tracker.Prelude.Int.{ℤ, pos, ◌+ℤ◌, eqb_ℤ}
use project_tracker.Prelude.Exec.{Exec, ◌>>=◌, ◌>>◌, pure, throw_if, gets, or_throw, attempt}
use project_tracker.Store.Schema.{Project, NumberSequence, projects, number_sequences}
use project_tracker.Store.App.{App, Date}
use project_tracker.Services.{
  Error, project_not_found, sequences_collection_not_found, query_sequences_failed,
  update_sequence_failed, create_sequence_failed, commit_failed,
}
use project_tracker.Numbering.Format.{
  get_financial_year, config_group_for_type, format_doc_number, default_format,
}

-- The filter of the query for the sequence of one kind and year.
abbrev pub is_sequence : String → String → String → NumberSequence → Bool
is_sequence project_id seq_type fy r =
    r.project == project_id && (r.sequence_type == seq_type && r.financial_year == fy)

unfoldable pub or_default : String → String → String
or_default s d = if s == "" then d else s

unfoldable pub or_default_ℤ : ℤ → ℤ → ℤ
or_default_ℤ n d = if eqb_ℤ n (pos 0) then d else n

-- `project.GetInt("dc_seq_start_" + seqType)`; a field that the collection lacks reads as 0.
unfoldable pub dc_seq_start : Project → String → ℤ
dc_seq_start p seq_type =
    if seq_type == "tdc"
    then p.dc_seq_start_tdc
    else if seq_type == "odc"
    then p.dc_seq_start_odc
    else if seq_type == "stdc"
    then p.dc_seq_start_stdc
    else pos 0

-- The number of the first document of a sequence.
unfoldable pub seq_start : Project → String → ℤ
unfolding or_default_ℤ dc_seq_start config_group_for_type
seq_start p seq_type =
    or_default_ℤ
      (if config_group_for_type seq_type == "po" then p.po_seq_start else dc_seq_start p seq_type)
      (pos 1)

-- The project's settings of the group, with their defaults, and the finished number.
unfoldable pub numbered : (String → String) → Project → String → String → ℤ → String
unfolding or_default or_default_ℤ config_group_for_type
numbered to_upper p seq_type fy n =
    let is_po = config_group_for_type seq_type == "po" in
    format_doc_number to_upper
      (or_default (if is_po then p.po_number_format else p.dc_number_format) default_format)
      (or_default (if is_po then p.po_separator else p.dc_separator) "-")
      (if is_po then p.po_prefix else p.dc_prefix) seq_type fy n
      (or_default_ℤ (if is_po then p.po_seq_padding else p.dc_seq_padding) (pos 3))
      p.reference_number

module _ (app : App) where
  open app use {Db, has_collection, find_record_by_id, find_records_by_filter, save}

  -- The new number is written to the record that the query found, or to a new record.
  unfoldable pub store_next : String → String → String → ℤ → List NumberSequence → Exec Db Error ℤ
  store_next project_id seq_type fy start (rec ∷ rest) = do
    let next_num = rec.last_number +ℤ pos 1
    attempt update_sequence_failed (save number_sequences (record rec { last_number = next_num }))
    pure next_num
  store_next project_id seq_type fy start [] = do
    attempt create_sequence_failed (
        save number_sequences (record {
          id = "";
          project = project_id;
          sequence_type = seq_type;
          financial_year = fy;
          last_number = start;
        }))
    pure start

  -- The body of the transaction.
  unfoldable pub advance : String → String → String → ℤ → Exec Db Error ℤ
  unfolding store_next
  advance project_id seq_type fy start = do
    found ← gets (find_records_by_filter number_sequences (is_sequence project_id seq_type fy) "" 1)
    records ← or_throw query_sequences_failed found
    store_next project_id seq_type fy start records

  unfoldable pub next_doc_number : String → String → Date → Exec Db Error String
  next_doc_number project_id seq_type doc_date = do
    found ← gets (find_record_by_id projects project_id)
    project ← or_throw project_not_found found
    let fy = get_financial_year doc_date
    known ← gets (has_collection number_sequences)
    throw_if (if known then false else true) sequences_collection_not_found
    next_num ←
        app.run_in_transaction Error ℤ commit_failed
          (advance project_id seq_type fy (seq_start project seq_type))
    pure (numbered app.to_upper project seq_type fy next_num)

  unfoldable pub generate_po_number : String → Date → Exec Db Error String
  unfolding next_doc_number
  generate_po_number project_id now = next_doc_number project_id "po" now
