-- ===== src/Api.antt =====
-- urlshort/api.go: the REST handlers, and urlshort/redirect.go.
pub mod Target
pub mod Types
pub mod Prepare
pub mod Listing
pub mod Links
pub mod Redirect
pub mod Batch
pub mod Dispatch
pub mod Effects
pub mod Roundtrip
pub mod Scope
mod Tests
