-- ===== src/Lock/Config.antt =====
-- The constants, the flags and the template arguments of frontend/OptimisticLocks.hpp.
use rdma_synchronization.Common.{ℕ, ◌+◌, ◌-◌, ◌^◌, Bool, List}

-- The structs that are template arguments for `Consistency` and for `LockType`.
pub data Consistency : Type 0 where
  farm crc v2 broken rc : Consistency

pub data LockType : Type 0 where
  header footer : LockType

abbrev pub w_locked : ℕ
w_locked = 1

abbrev pub w_unlocked : ℕ
w_unlocked = 0

abbrev pub exclusive_locked : ℕ
exclusive_locked = 0x1000000000000000

abbrev pub exclusive_unlock_to_be_added : ℕ
exclusive_unlock_to_be_added = 0xFFFFFFFFFFFFFFFF - exclusive_locked + 1

abbrev pub unlocked : ℕ
unlocked = 0

-- `int64_t{-1}` as the `uint64_t` that a fetch-and-add takes.
abbrev pub minus_one : ℕ
minus_one = 2 ^ 64 - 1

-- Words in a cache line: `CL / sizeof(uint64_t)`.
abbrev pub line_words : ℕ
line_words = 8

-- `batch_size`, `memcpy`, the static `user_buffer`, and `crc64` of backend/nam/utils/crc64.cpp.
pub record Config : Type 0 where
  pub batch_size : ℕ
  pub memcpy : Bool
  pub user_buffer : ℕ
  pub crc64 : ℕ → List ℕ → ℕ
