-- ===== src/Scheduler.antt =====
-- app/services/scheduler/scheduler_service.py: the unified task scheduler over the database.
pub mod Store
pub mod Rows
pub mod Progress
pub mod Recovery
pub mod Payload
pub mod Queue
pub mod Reservation
pub mod Dispatch
pub mod Invariant
pub mod Operations
pub mod Lifecycle
