-- ===== src/BatchQueue/Inv.antt =====
-- The invariant of a batch queue: which batches the two lists hold and which the callers hold.
pub mod Links
pub mod Ops
pub mod Setup
pub mod Duplicates
pub mod Drain
pub use Links.{Inv, refill-Inv}
