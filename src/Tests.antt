-- ===== src/Tests.antt =====
-- Concrete runs: each property at one input where its conditions hold.
mod Latches
mod Containers
mod Queues
mod Locks
mod Words
mod Pools
mod Barriers
mod Connections
mod Stores
mod Numbers
mod Snapshots
mod Tails
mod Setups
mod Descents
