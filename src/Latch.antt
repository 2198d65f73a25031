-- ===== src/Latch.antt =====
-- backend/nam/syncprimitives/HybridLatch.hpp: latches with a version that readers validate.
pub mod Bits
pub mod Optimistic
pub mod Hybrid
pub mod System
