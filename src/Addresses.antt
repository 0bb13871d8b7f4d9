-- ===== src/Addresses.antt =====
-- services/address_validation.go, address_config.go, address_fields.go, csv_import.go and
-- address_import.go: the fields of an address, their formats, and the import of whole files.
pub mod Pattern
pub mod Shape
pub mod Fields
pub mod Required
pub mod Import
pub mod Validate
pub mod Commit
pub mod Stored
pub mod Counted
pub mod Summary
pub mod Recheck
pub mod Delete
pub mod Unlinked
mod Tests
