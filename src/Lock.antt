-- ===== src/Lock.antt =====
-- frontend/OptimisticLocks.hpp: locks on tuples in the memory of the storage node.
pub mod Config
pub mod Farm
pub mod Crc
pub mod Exclusive
pub mod Optimistic
pub mod ReaderWriter
pub mod Single
pub mod Tail
