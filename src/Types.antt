-- ===== src/Types.antt =====
-- src/openlinker/runtime/types.py
pub mod Uuid
pub mod Time
pub mod Checks
pub mod Identity
pub mod Features
pub mod Messages
pub mod Runs
mod Examples
