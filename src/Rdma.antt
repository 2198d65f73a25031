-- ===== src/Rdma.antt =====
-- One-sided RDMA: the work requests that the code posts, and a client that posts them.
pub mod Request
pub mod Memory
pub mod Client
pub mod Barrier
