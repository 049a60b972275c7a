-- ===== src/Rules.antt =====
-- urlshort/rules.go: the mapping rules engine.
pub mod Key
pub mod Match
pub mod Generate
pub mod Random
mod Tests
