-- ===== src/Worker.antt =====
-- src/openlinker/runtime/worker.py
pub mod Run
pub mod Ranges
pub mod Attempts
pub mod Policy
pub mod Retry
pub mod Flush
pub mod Answers
pub mod Assign
pub mod Deliver
pub mod Outcomes
pub mod Resume
pub mod Commands
pub mod Keeps
pub mod Steps
mod Examples
