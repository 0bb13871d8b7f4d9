-- ===== src/Store.antt =====
-- The record store: the collections that collections/setup.go declares, the interface of the
-- PocketBase application object that the services and handlers call, and a store in memory that
-- shows that the interface's laws can be met.
pub mod Schema
pub mod App
pub mod Status
pub mod Memory
pub mod Saved
pub mod Samples
