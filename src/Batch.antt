-- ===== src/Batch.antt =====
-- internal/batch: the validation of many endpoints with a bounded number of workers.
pub mod Defs
pub mod Boundary
pub mod Unique
pub mod Source
pub mod Entry
pub mod Summary
pub mod Counts
pub mod Batches
pub mod Workers
pub mod Agreement
pub mod Progress
pub mod Orderly
pub mod Completion
mod Tests
