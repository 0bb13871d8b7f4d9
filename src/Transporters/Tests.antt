-- ===== src/Transporters/Tests.antt =====
-- Transporters, on a store in memory.
use project_tracker.Prelude.{◌≡◌, refl, [], ◌∷◌, some, true}
use project_tracker.Store.Schema.{Transporter, transporters}
use project_tracker.Store.Memory.{MemDb, empty_db, put_table}
use project_tracker.Store.Memory.Lawful.{memory-Laws}
use project_tracker.Store.Samples.{app, every, june}
use project_tracker.Transporters.{blank_transporter, handle_transporter_toggle, own_transporter}
use project_tracker.Transporters.Toggled.{handle_transporter_toggle-twice}

abbrev carrier : Transporter
carrier = record (blank_transporter "p1") { id = "t1" }

abbrev with_carrier : MemDb
with_carrier = put_table transporters (carrier ∷ []) empty_db

abbrev with_active : MemDb
with_active = put_table transporters (record carrier { is_active = true } ∷ []) empty_db

handle_transporter_toggle-twice_example :
    app.find_record_by_id transporters "t1" with_carrier ≡ some carrier
unfolding handle_transporter_toggle own_transporter
handle_transporter_toggle-twice_example =
    handle_transporter_toggle-twice app (memory-Laws every june) "p1" "t1" carrier with_carrier
      with_active with_carrier refl refl refl
