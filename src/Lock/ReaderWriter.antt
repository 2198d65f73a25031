-- ===== src/Lock/ReaderWriter.antt =====
-- The reader-writer lock in one remote word: `ReaderWriterLock` of frontend/OptimisticLocks.hpp, and
-- the functions in frontend/locking_benchmark.cpp that lock and unlock a tuple.
pub mod Word
pub mod Tuple
pub mod Rounds
pub mod Traversal
pub mod System
pub mod Safety
use rdma_synchronization.Common.{ℕ, ◌+◌, ◌-◌, ◌*◌, Bool, true, false, not, ◌==◌, leb, if◌then◌else◌}
use rdma_synchronization.Rdma.Request.{
  Context, post_compare_swap, post_fetch_add, post_read, post_write,
}
use rdma_synchronization.Rdma.Memory.{Memory}
use rdma_synchronization.Rdma.Client.{
  Nic, M, pure, ◌>>=◌, ◌>>◌, restart_if, load, post, for_from, wait_completion, wait_all,
}
use rdma_synchronization.Lock.Config.{
  Config, exclusive_locked, exclusive_unlock_to_be_added, unlocked, minus_one,
}

-- The members of `ReaderWriterLock`.
pub record ReaderWriterLock : Type 0 where
  pub rctx : Context
  pub remote_address : ℕ
  pub lock_buffer : ℕ
  pub tuple_buffer : ℕ
  pub bytes : ℕ

module _ (nic : Nic) (others : ℕ → Memory → Memory) (config : Config) where
  pub lock_exclusive : ReaderWriterLock → M (Unit {0})
  lock_exclusive t = do
    post nic others
        (post_compare_swap unlocked exclusive_locked t.lock_buffer t.rctx false t.remote_address)
    post nic others (post_read t.tuple_buffer t.rctx true (t.remote_address + 8) (t.bytes - 8) 0)
    wait_completion
    x_locked ← load t.lock_buffer
    restart_if (not (x_locked == unlocked))

  pub unlock_exclusive : ReaderWriterLock → M (Unit {0})
  unlock_exclusive t = do
    post nic others (post_write t.tuple_buffer t.rctx false (t.remote_address + 8) (t.bytes - 8))
    post nic others (
        post_fetch_add exclusive_unlock_to_be_added t.lock_buffer t.rctx false t.remote_address
          true)

  pub lock_shared : ReaderWriterLock → M (Unit {0})
  lock_shared t = do for_from 0 config.batch_size (λ i. shared_round); wait_all config.batch_size
    where
      shared_round : M (Unit {0})
      shared_round = do
        post nic others (post_fetch_add 1 t.lock_buffer t.rctx false t.remote_address false)
        post nic others
            (post_read t.tuple_buffer t.rctx true (t.remote_address + 8) (t.bytes - 8) 0)
        post nic others (post_fetch_add minus_one t.lock_buffer t.rctx false t.remote_address true)

-- What the functions of the benchmark capture: the queue pair, the buffer and `TUPLE_SIZE`.
pub record Worker : Type 0 where
  pub rctx : Context
  pub old : ℕ
  pub tuple_size : ℕ

module _ (nic : Nic) (others : ℕ → Memory → Memory) where
  pub x_unlock : Worker → ℕ → M (Unit {0})
  x_unlock t lock_addr = do
    post nic others (post_fetch_add exclusive_unlock_to_be_added t.old t.rctx true lock_addr false)
    wait_completion

  pub basic_x_lock : Worker → ℕ → M Bool
  basic_x_lock t lock_addr = do
    post nic others (post_compare_swap unlocked exclusive_locked t.old t.rctx true lock_addr)
    wait_completion
    x_locked ← load t.old
    (if not (x_locked == unlocked)
        then pure false
        else post nic others (post_read t.old t.rctx true lock_addr t.tuple_size 0)
          >> (wait_completion >> pure true))

  pub speculative_read_x_lock : Worker → ℕ → M Bool
  speculative_read_x_lock t lock_addr = do
    post nic others (post_compare_swap unlocked exclusive_locked t.old t.rctx false lock_addr)
    post nic others (post_read (t.old + 8) t.rctx true (lock_addr + 8) (t.tuple_size - 8) 0)
    wait_completion
    x_locked ← load t.old
    pure (x_locked == unlocked)

  pub write_combining : Worker → ℕ → M (Unit {0})
  unfolding x_unlock
  write_combining t lock_addr = do
    post nic others (post_write (t.old + 8) t.rctx false (lock_addr + 8) (t.tuple_size - 8))
    x_unlock t lock_addr

  pub x_order_release : Worker → ℕ → M (Unit {0})
  x_order_release t lock_addr = do
    post nic others (post_write (t.old + 8) t.rctx false (lock_addr + 8) (t.tuple_size - 8))
    post nic others (post_fetch_add exclusive_unlock_to_be_added t.old t.rctx false lock_addr false)

  pub s_unlock : Worker → ℕ → M (Unit {0})
  s_unlock t lock_addr = do
    post nic others (post_fetch_add minus_one t.old t.rctx true lock_addr false)
    wait_completion

  pub basic_s_lock : Worker → ℕ → M Bool
  unfolding s_unlock
  basic_s_lock t lock_addr = do
    post nic others (post_fetch_add 1 t.old t.rctx true lock_addr false)
    wait_completion
    s_locked ← load t.old
    (if leb exclusive_locked s_locked
        then s_unlock t lock_addr >> pure false
        else post nic others (post_read t.old t.rctx true lock_addr t.tuple_size 0)
          >> (wait_completion >> pure true))

  pub speculative_read_s_lock : Worker → ℕ → M Bool
  unfolding s_unlock
  speculative_read_s_lock t lock_addr = do
    post nic others (post_fetch_add 1 t.old t.rctx false lock_addr false)
    post nic others (post_read (t.old + 8) t.rctx true (lock_addr + 8) (t.tuple_size - 8) 0)
    wait_completion
    s_locked ← load t.old
    (if leb exclusive_locked s_locked then s_unlock t lock_addr >> pure false else pure true)

  pub s_order_release : Worker → ℕ → M (Unit {0})
  s_order_release t lock_addr =
      post nic others (post_fetch_add minus_one t.old t.rctx false lock_addr false)
