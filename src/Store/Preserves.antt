-- ===== src/Store/Preserves.antt =====
-- Every method of a store (src/openlinker/runtime/store.py) keeps it consistent.
pub mod Spool
pub mod Puts
pub mod Events
pub mod Results
pub mod Assignments
