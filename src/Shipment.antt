-- ===== src/Shipment.antt =====
-- services/dc_creation.go: direct shipments and transfer challans made from a form.
pub mod Params
mod Tests
pub mod Form
pub mod Items
pub mod Keys
pub mod Direct
pub mod Transfer
