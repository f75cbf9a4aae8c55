-- ===== src/Batch/Leasing.antt =====
-- What `lease` promises a node: bounds, eligibility, distinct units, queue order, and no idle node
-- beside work that it could do.
pub mod Handed
pub mod Order
pub mod Exhaust
pub mod Fifo
