-- ===== src/Calls.antt =====
-- Confirmation calls: backend/src/calls.
pub mod Dispatcher
pub mod Orchestrator
pub mod Pending
pub mod Policy
pub mod Service
