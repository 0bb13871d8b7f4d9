-- ===== src/Split.antt =====
-- services/dc_split.go: transfer challans are split into shipment groups, and splits taken back.
pub mod Params
mod Tests
pub mod Check
pub mod Plan
pub mod Write
pub mod Finish
pub mod Create
pub mod Undo
pub mod Guarded
pub mod Undone
pub mod RoundTrip
pub mod Wizard
