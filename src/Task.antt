-- ===== src/Task.antt =====
-- The asynchronous tasks: their store, the endpoints and the worker.
pub mod State
pub mod Redis
pub mod Store
pub mod Api
pub mod Worker
mod Tests
