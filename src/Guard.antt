-- ===== src/Guard.antt =====
-- The SQL checks of guard/, the execution of SQL and the pipeline on them.
pub mod Sqlglot
pub mod Safety
pub mod Hallucinations
pub mod Errors
pub mod Executor
pub mod Review
pub mod Pipeline
mod Tests
