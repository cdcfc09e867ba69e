-- ===== src/Scheduler/Lifecycle.antt =====
-- What the operations of app/services/scheduler/scheduler_service.py promise of one task's life.
pub mod Closed
pub mod Finalize
pub mod Resume
pub mod Leases
