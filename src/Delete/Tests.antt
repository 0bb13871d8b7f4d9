-- ===== src/Delete/Tests.antt =====
-- Deleting, on a store in memory.
use project_tracker.Store.Samples.{app, stock}
use project_tracker.Delete.{handle_dc_delete}
use project_tracker.Delete.Guarded.{DeleteGuarded, handle_dc_delete-DeleteGuarded}

handle_dc_delete-DeleteGuarded_example :
    DeleteGuarded app "p1" "d3" stock (handle_dc_delete app "p1" "d3" stock)
handle_dc_delete-DeleteGuarded_example = handle_dc_delete-DeleteGuarded app "p1" "d3" stock
