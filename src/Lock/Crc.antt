-- ===== src/Lock/Crc.antt =====
-- `CRC` of frontend/OptimisticLocks.hpp: a checksum in the first word of a buffer. `crc64` is a
-- parameter.
pub mod Content
use rdma_synchronization.Common.{
  ℕ, ◌+◌, ◌-◌, ◌/◌, Option, none, some, ◌==◌, ◌≡◌, ◌≢◌, refl, arith, if◌then◌else◌,
}
use rdma_synchronization.Rdma.Memory.{Memory, store, words}
use rdma_synchronization.Lock.Config.{Config}

-- The checksum of all words but the first, which holds it.
pub checksum : Config → ℕ → ℕ → Memory → ℕ
checksum config buffer bytes m = config.crc64 0 (words m (buffer + 8) ((bytes - 8) / 8))

pub generate : Config → ℕ → ℕ → Memory → Memory
unfolding checksum
generate config buffer bytes m = store m buffer (checksum config buffer bytes m)

pub check : Config → ℕ → ℕ → Memory → Option Memory
unfolding checksum
check config buffer bytes m = if m buffer == checksum config buffer bytes m then some m else none
