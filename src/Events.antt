-- ===== src/Events.antt =====
-- The local event bus of app/services/task_queue_service.py.
pub mod Bus
pub mod Views
pub mod Refines
mod Examples
