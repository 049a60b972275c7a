-- ===== src/Store.antt =====
-- urlshort/store.go and urlshort/store_bbolt.go: the persistent link store.
pub mod Error
pub mod Bolt
pub mod Link
pub mod Create
pub mod Change
pub mod Read
pub mod Consistent
mod Tests
