-- ===== src/Task/Tests.antt =====
-- Concrete runs of the task store, the endpoints and the worker.
mod Memory
mod Runs
mod Streams
