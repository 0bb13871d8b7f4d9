-- ===== src/Services.antt =====
-- The errors that the services return, one for each message.
use project_tracker.Prelude.{ℕ, String, List}
use project_tracker.Prelude.Int.{ℤ}
use project_tracker.Store.Schema.{Collection, DcStatus, GroupStatus}

-- Where the source formats a value into the message, the constructor holds it. The text of an
-- error that PocketBase returned and the message wraps is left out.
pub data Error : Type 0 where
  -- numbering.go
  project_not_found sequences_collection_not_found query_sequences_failed : Error
  update_sequence_failed create_sequence_failed commit_failed : Error
  -- dc_issue.go
  group_not_found group_not_draft fetch_group_dcs_failed dc_not_found : Error
  not_draft not_transfer fetch_line_items_failed issue_failed update_group_failed : Error
  dc_not_draft issue_dc_failed : String → Error
  wrong_serial_count : ℤ → ℕ → Error
  duplicate_serials : List String → Error
  serial_in_use : String → String → Error
  -- dc_creation.go and dc_split.go
  collection_not_found : Collection → Error
  create_failed : Collection → Error
  number_failed : String → Error → Error
  save_serial_failed : String → Error
  not_splittable : DcStatus → Error
  transfer_metadata_not_found fetch_parent_items_failed split_not_found parent_not_found : Error
  destination_not_found destination_already_split destination_foreign : String → Error
  split_group_issued : GroupStatus → Error
  -- dc_delete.go of the handlers
  not_in_project delete_failed : Error
  -- the other handlers; a panic ends the handler
  missing_id invalid_form nil_record words_panic : Error
  record_not_found save_failed query_failed : Collection → Error
  unknown_source source_not_found foreign_line_item foreign_order : Error
  order_not_deletable : String → Error
  vendor_has_orders invalid_address_type no_selection query_linked_failed : Error
  nullify_failed : String → Error
