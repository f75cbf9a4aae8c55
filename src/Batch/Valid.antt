-- ===== src/Batch/Valid.antt =====
-- The invariant of `BatchStore`, and its preservation by each method.
pub mod Defs
pub mod Queue
pub mod Opens
pub mod Reporting
pub mod Requeueing
pub mod Leasing
pub mod Inserting
pub mod Submitted
pub mod Submitting
pub mod Cancelling
