-- ===== src/Batch.antt =====
-- orchestrator/batch.py: batches, their work units, and the queue of leased work. `Data` has the
-- records, `Submit` ... `Status` the methods of `BatchStore`, and the folders the theorems.
pub mod Data
pub mod Submit
pub mod Lease
pub mod Report
pub mod Requeue
pub mod Cancel
pub mod Status
pub mod Totals
pub mod Ordering
pub mod Units
pub mod Spent
pub mod Requested
pub mod Results
pub mod Answered
pub mod Machine
pub mod Cases
pub mod LeaseLoop
pub mod Evolve
pub mod Valid
pub mod Planting
pub mod Leasing
pub mod History
mod Tests
