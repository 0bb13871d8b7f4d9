-- ===== src/Transporters.antt =====
-- handlers/transporter_create.go, transporter_detail.go and transporter_vehicles.go: transporters and
-- their vehicles. The uploaded images of a vehicle are left out.
pub mod Toggled
mod Tests
use project_tracker.Prelude.{
  String, ◌==◌, not, Bool, true, false, if◌then◌else◌, Option, none, some,
}
use project_tracker.Prelude.Exec.{Exec, ◌>>=◌, ◌>>◌, pure, gets, or_throw, throw_if, attempt}
use project_tracker.Store.Schema.{
  Transporter, TransporterVehicle, transporters, transporter_vehicles,
}
use project_tracker.Store.App.{App}
use project_tracker.Services.{
  Error, invalid_form, record_not_found, save_failed, collection_not_found, delete_failed,
}
use project_tracker.Shipment.Form.{Form, get_val}
use project_tracker.Orders.{trimmed}

-- The fields that the form sets.
unfoldable pub set_transporter_fields : Transporter → Form → Transporter
unfolding trimmed
set_transporter_fields r form = record r {
  company_name = trimmed form "company_name";
  contact_person = trimmed form "contact_person";
  phone = trimmed form "phone";
  gst_number = trimmed form "gst_number";
  is_active = get_val form "is_active" == "on";
}

abbrev pub blank_transporter : String → Transporter
blank_transporter project_id = record {
  id = "";
  project = project_id;
  company_name = "";
  contact_person = "";
  phone = "";
  gst_number = "";
  is_active = false;
}

module _ (app : App) where
  open app use {Db, has_collection, find_record_by_id, save, delete}

  -- `HandleTransporterSave`; the id of the new record goes into the redirection.
  unfoldable pub handle_transporter_save : String → Form → Exec Db Error String
  unfolding trimmed
  handle_transporter_save project_id form = do
    throw_if (trimmed form "company_name" == "") invalid_form
    known ← gets (has_collection transporters)
    throw_if (not known) (collection_not_found transporters)
    saved ←
        attempt (save_failed transporters)
          (save transporters (set_transporter_fields (blank_transporter project_id) form))
    pure saved.id

  -- The transporter, if it belongs to the project.
  unfoldable pub own_transporter : (project_id id : String) → Exec Db Error Transporter
  own_transporter project_id id = do
    found ← gets (find_record_by_id transporters id)
    rec ← or_throw (record_not_found transporters) found
    throw_if (not (rec.project == project_id)) (record_not_found transporters)
    pure rec

  -- `HandleTransporterUpdate`
  unfoldable pub handle_transporter_update :
      (project_id id : String) → Form → Exec Db Error (Unit {0})
  unfolding trimmed
  handle_transporter_update project_id id form = do
    rec ← own_transporter project_id id
    throw_if (trimmed form "company_name" == "") invalid_form
    attempt (save_failed transporters) (save transporters (set_transporter_fields rec form))
    pure tt

  -- `HandleTransporterToggle`
  unfoldable pub handle_transporter_toggle : (project_id id : String) → Exec Db Error (Unit {0})
  handle_transporter_toggle project_id id = do
    rec ← own_transporter project_id id
    attempt (save_failed transporters)
        (save transporters (record rec { is_active = not rec.is_active }))
    pure tt

  -- `HandleVehicleAdd`
  unfoldable pub handle_vehicle_add :
      (project_id transporter_id : String) → Form → Exec Db Error (Unit {0})
  unfolding trimmed
  handle_vehicle_add project_id transporter_id form = do
    rec ← own_transporter project_id transporter_id
    throw_if (trimmed form "vehicle_number" == "") invalid_form
    known ← gets (has_collection transporter_vehicles)
    throw_if (not known) (collection_not_found transporter_vehicles)
    attempt (save_failed transporter_vehicles) (
        save transporter_vehicles (record {
          id = "";
          transporter = transporter_id;
          vehicle_number = trimmed form "vehicle_number";
          vehicle_type = trimmed form "vehicle_type";
          driver_name = trimmed form "driver_name";
          driver_phone = trimmed form "driver_phone";
        }))
    pure tt

  -- `HandleVehicleDelete`
  unfoldable pub handle_vehicle_delete :
      (project_id transporter_id vehicle_id : String) → Exec Db Error (Unit {0})
  handle_vehicle_delete project_id transporter_id vehicle_id = do
    rec ← own_transporter project_id transporter_id
    found ← gets (find_record_by_id transporter_vehicles vehicle_id)
    vehicle ← or_throw (record_not_found transporter_vehicles) found
    throw_if (not (vehicle.transporter == transporter_id)) (record_not_found transporter_vehicles)
    attempt delete_failed (delete transporter_vehicles vehicle.id)
