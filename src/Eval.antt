-- ===== src/Eval.antt =====
-- The evaluation of evaluation/: its background tasks.
pub mod Progress
pub mod Store
pub mod Manager
pub mod Thread
mod Tests
