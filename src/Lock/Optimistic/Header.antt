-- ===== src/Lock/Optimistic/Header.antt =====
-- A tuple under `V2` with the lock in the header: the version in the first word and the lock in the
-- second.
pub mod Writers
pub mod Snapshot
