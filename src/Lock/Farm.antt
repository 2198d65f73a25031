-- ===== src/Lock/Farm.antt =====
-- `FaRM` of frontend/OptimisticLocks.hpp: a version at the head of each cache line. A buffer is an
-- address in the client's memory; `buffer[i]` is the word at `buffer + 8 * i`.
pub mod Lines
pub mod Snapshot
use rdma_synchronization.Common.{
  ℕ, zero, suc, ◌+◌, ◌-◌, ◌*◌, ◌/◌, Bool, true, false, not, ◌&&◌, Option, none, some, ◌==◌, ltb,
  if◌then◌else◌,
}
use rdma_synchronization.Common.Word.{add_u64}
use rdma_synchronization.Rdma.Memory.{Memory, store, copy}
use rdma_synchronization.Lock.Config.{Config, line_words}

-- `buffer[i]++`
abbrev pub increment : Memory → ℕ → Memory
increment m a = store m a (add_u64 (m a) 1)

-- The loop of `generateConsistencyProof` from `cl_i` on, for at most `fuel` rounds.
pub bump_lines : ℕ → ℕ → ℕ → ℕ → Memory → Memory
bump_lines zero limit cl_i buffer m = m
bump_lines (suc fuel) limit cl_i buffer m = elim (ltb cl_i limit) [
  | true ↦ bump_lines fuel limit (cl_i + line_words) buffer (increment m (buffer + 8 * cl_i))
  | false ↦ m
]

-- The first line is left to the caller: it holds the version and the latch.
pub generate : ℕ → ℕ → Memory → Memory
unfolding bump_lines
generate buffer bytes m = bump_lines (bytes / 8) (bytes / 8) 8 buffer m

-- The `memcpy` of one line without its version, under `FLAGS_memcpy`.
pub copy_line : Config → ℕ → ℕ → Memory → Memory
copy_line config cl_i buffer m =
    let idx = if cl_i == 0 then 0 else cl_i - 1 in
    if config.memcpy && not (config.user_buffer == 0)
    then copy 7 m (buffer + 8 * cl_i + 8) m (config.user_buffer + 8 * idx)
    else m

-- The loop of `checkConsistencyProof`; `none` is `OLRestartException`.
pub check_lines : Config → ℕ → ℕ → ℕ → ℕ → ℕ → Memory → Option Memory
check_lines config zero limit cl_i prev buffer m = some m
check_lines config (suc fuel) limit cl_i prev buffer m = elim (ltb cl_i limit) [
  | true ↦ elim (prev == m (buffer + 8 * cl_i)) [
    | true ↦
        check_lines config fuel limit (cl_i + line_words) prev buffer
          (copy_line config cl_i buffer m)
    | false ↦ none
  ]
  | false ↦ some m
]

pub check : Config → ℕ → ℕ → Memory → Option Memory
unfolding check_lines copy_line
check config buffer bytes m = check_lines config (bytes / 8 + 1) (bytes / 8) 0 (m buffer) buffer m
