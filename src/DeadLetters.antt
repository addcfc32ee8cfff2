-- ===== src/DeadLetters.antt =====
-- The webhook dead-letter queue: its table in `Table`, the retry job in `Job`.
pub mod Table
pub mod Job
mod Examples
