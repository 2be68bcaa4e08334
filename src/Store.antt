-- ===== src/Store.antt =====
-- src/openlinker/runtime/store.py
pub mod State
pub mod Seqs
pub mod Records
pub mod Codec
pub mod Acks
pub mod Memory
pub mod Methods
pub mod Invariant
pub mod Lookups
pub mod Preserves
pub mod Reach
pub mod Sorting
pub mod Pending
pub mod File
pub mod Examples
