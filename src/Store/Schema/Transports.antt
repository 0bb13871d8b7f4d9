-- ===== src/Store/Schema/Transports.antt =====
-- collections/setup.go: transporters and their vehicles. The uploaded files of a vehicle are left out.
use project_tracker.Prelude.{String, Bool}

pub record Transporter : Type 0 where
  pub id : String
  pub project : String
  pub company_name : String
  pub contact_person : String
  pub phone : String
  pub gst_number : String
  pub is_active : Bool

pub record TransporterVehicle : Type 0 where
  pub id : String
  pub transporter : String
  pub vehicle_number : String
  pub vehicle_type : String
  pub driver_name : String
  pub driver_phone : String
