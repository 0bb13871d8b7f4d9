-- ===== src/Boqs.antt =====
-- handlers/boq_edit.go: a bill of quantities is saved as a whole, and empty items are added to it.
pub mod Update
pub mod Rollup
pub mod Add
pub mod Added
mod Tests
