-- ===== src/Lib.antt =====
-- ProjectTracker: challans, purchase orders, bills of quantities, vendors and addresses.
--
-- The program is a web application on PocketBase that keeps projects, bills of quantities, purchase
-- orders and delivery challans. This library models the services that move challans through their
-- life: they are created with a shipment group or as a transfer, numbered, checked, issued, split,
-- and deleted while they are drafts. It also models the handlers that change purchase orders, items,
-- vendors and transporters, and the import of addresses.
--
-- Parts and files:
-- - Store/Schema: the collections of collections/setup.go, a record type for each. Select fields
--   are data types. Number fields that the code reads with GetInt are 64-bit integers.
-- - Store/App: the interface of the PocketBase application object, with the clock, date parsing
--   and float64 operations, as a record that every definition takes as a parameter. `Laws` states
--   what the code relies on: lookups by id, saves that touch one record, complete queries, and
--   transactions that are committed whole or not at all. Store/Memory is a store in memory that
--   meets the laws, and Store/Samples holds records for trying definitions out.
-- - Numbering: services/numbering.go and services/po_number.go. GetFinancialYear is
--   get_financial_year, FormatDocNumber is format_doc_number, NextDocNumber is next_doc_number,
--   whose transaction body is `advance`.
-- - Serials: services/serial_validation.go. ValidateSerials is validate_serials.
-- - Issue: services/dc_issue.go. IssueShipmentGroup, IssueTransferDC, IssueSingleDC and
--   validateDCSerials are issue_shipment_group, issue_transfer_dc, issue_single_dc and
--   validate_dc_serials; it uses Serials.
-- - Challans: what services/dc_creation.go and services/dc_split.go write in the same words.
-- - Shipment: services/dc_creation.go. CreateDirectShipment, CreateTransferDC,
--   ParseShipmentItemsFromForm and parseSerials are create_direct_shipment, create_transfer_dc,
--   parse_shipment_items and parse_serials; it uses Numbering.
-- - Split: services/dc_split.go. CreateSplit is create_split, a module for each group of its
--   numbered steps, and UndoSplit is undo_split; it uses Numbering. Split/Wizard has the two handlers
--   of handlers/split_wizard.go that call them.
-- - Delete: handlers/dc_delete.go. HandleDCDelete is handle_dc_delete.
-- - Words: services/po_pricing.go. AmountToWords is amount_to_words, on float64.
-- - Pricing: services/pricing.go and the totals of services/po_pricing.go, on float64.
-- - Format: services/format.go. applyIndianGrouping is apply_indian_grouping, FormatINR is
--   format_inr, from the text of "%.2f" on.
-- - Items: handlers/items.go. recalcSubItemBudgeted and recalcMainItemBudgeted are
--   recalc_sub_item_budgeted and recalc_main_item_budgeted; Items/Remove has the handlers that
--   delete items and Items/Patch those that change fields. It uses Pricing.
-- - Boqs: handlers/boq_edit.go. HandleBOQUpdate is handle_boq_update (Boqs/Update), the handlers
--   that add items are in Boqs/Add.
-- - Orders: handlers/po_create.go, po_edit.go and po_delete.go; isValidStatusTransition is
--   is_valid_status_transition. Orders/Lines and Orders/Change are handlers/po_line_items.go. It
--   uses Numbering and Pricing.
-- - Addresses: services/address_validation.go (Addresses/Pattern and Fields), address_fields.go and
--   ReadAddressData of address_config.go (Fields), csv_import.go (Import and Validate) and
--   address_import.go (Commit). CommitAddressImport is commit_address_import, insertChunk is
--   insert_chunk. Addresses/Delete is handlers/address_delete.go.
-- - Vendors, Transporters, Projects: handlers/vendor_create.go, vendor_edit.go, vendor_delete.go and
--   vendor_link.go; transporter_create.go, transporter_detail.go and transporter_vehicles.go;
--   project_delete.go, boq_delete.go, dc_issue.go and dc_edit.go. A handler keeps its name.
-- - Prelude: shared types and lemmas: 64-bit integers that wrap around, texts, and `Exec`, code
--   that reads and writes a store and may return an error. What was written before an error stays
--   written.
--
-- Loops over records are structural recursion on lists, so no fuel is needed. AmountToWords calls
-- itself once at most, for the negative of a negative amount, and has fuel for two calls. The digits
-- of a number take the number itself plus one as fuel, more than the divisions by ten it can stand.
-- The grouping of digits and the import in chunks take the number of digits and of rows as fuel:
-- every round removes two digits, or a hundred rows or all that are left.
--
-- Not modelled: pages, templates and exports; the readers of uploaded files; the answers that
-- handlers send to the browser; the rounding of float64; and cascades of PocketBase, which are the
-- business of the `delete` of the interface. The other handlers of the wizards, of projects'
-- settings, of single addresses and of the creation of bills of quantities are left out.
pub mod Prelude
pub mod Store
pub mod Services
pub mod Numbering
pub mod Serials
pub mod Format
pub mod Issue
pub mod Challans
pub mod Split
pub mod Shipment
pub mod Delete
pub mod Words
pub mod Pricing
pub mod Items
pub mod Orders
pub mod Addresses
pub mod Vendors
pub mod Transporters
pub mod Projects
pub mod Boqs
