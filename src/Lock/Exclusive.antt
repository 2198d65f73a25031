-- ===== src/Lock/Exclusive.antt =====
-- `AbstractLock`, `FooterLock`, `HeaderLock` and `ExclusiveLock` of frontend/OptimisticLocks.hpp.
pub mod Update
pub mod Steps
pub mod HeaderSteps
pub mod FarmUpdate
use rdma_synchronization.Common.{ℕ, ◌+◌, ◌-◌, ◌*◌, ◌/◌, Bool, true, false, not, ◌==◌}
use rdma_synchronization.Rdma.Request.{
  Context, post_compare_swap, post_fetch_add, post_read, post_write,
}
use rdma_synchronization.Rdma.Memory.{Memory}
use rdma_synchronization.Rdma.Client.{
  Nic, M, pure, ◌>>=◌, ◌>>◌, ok, restart_if, load, save, modify, post, wait_completion,
}
use rdma_synchronization.Lock.Config.{
  Config, Consistency, farm, crc, v2, broken, rc, LockType, header, footer, w_locked, w_unlocked,
  minus_one,
}
use rdma_synchronization.Lock.Farm
use rdma_synchronization.Lock.Farm.{increment}
use rdma_synchronization.Lock.Crc

-- The members of `ExclusiveLock`.
pub record ExclusiveLock : Type 0 where
  pub rctx : Context
  pub remote_address : ℕ
  pub lock_buffer : ℕ
  pub tuple_buffer : ℕ
  pub bytes : ℕ

-- The word of the lock: the second word of the tuple, or the last.
abbrev pub lock_word : LockType → ℕ → ℕ
lock_word header bytes = 1
lock_word footer bytes = bytes / 8 - 1

pub get_lock_position : LockType → ExclusiveLock → ℕ
get_lock_position header t = t.remote_address + 8
get_lock_position footer t = t.remote_address + (t.bytes - 8)

-- `c.generateConsistencyProof` on the part of the tuple that it covers.
unfoldable pub generate_proof : Config → Consistency → LockType → ℕ → ℕ → Memory → Memory
generate_proof config farm lt buffer bytes m = Farm.generate buffer bytes m
generate_proof config crc header buffer bytes m = Crc.generate config (buffer + 16) (bytes - 16) m
generate_proof config crc footer buffer bytes m = Crc.generate config (buffer + 8) (bytes - 16) m
generate_proof config v2 lt buffer bytes m = m
generate_proof config broken lt buffer bytes m = m
generate_proof config rc lt buffer bytes m = m

-- The word that `unlock` increments.
unfoldable pub version_word : Consistency → LockType → ℕ → ℕ
version_word v2 footer bytes = (bytes - 16) / 8
version_word c lt bytes = 0

module _ (nic : Nic) (others : ℕ → Memory → Memory) (config : Config) where
  abstract_lock : ℕ → ExclusiveLock → M (Unit {0})
  abstract_lock lock_addr t = do
    post nic others (post_compare_swap w_unlocked w_locked t.lock_buffer t.rctx false lock_addr)
    post nic others (post_read t.tuple_buffer t.rctx true t.remote_address t.bytes 0)
    wait_completion
    x_locked ← load t.lock_buffer
    restart_if (not (x_locked == w_unlocked))

  footer_unlock : ExclusiveLock → M (Unit {0})
  footer_unlock t = do
    let lock_idx = t.bytes / 8 - 1
    save (t.tuple_buffer + 8 * lock_idx) 0
    post nic others (post_write t.tuple_buffer t.rctx false t.remote_address t.bytes)

  header_unlock : ℕ → ExclusiveLock → M (Unit {0})
  header_unlock lock_addr t = do
    post nic others (post_write t.tuple_buffer t.rctx false t.remote_address t.bytes)
    post nic others (post_fetch_add minus_one t.lock_buffer t.rctx false lock_addr true)

  unlock_by : LockType → ExclusiveLock → M (Unit {0})
  unfolding footer_unlock header_unlock get_lock_position
  unlock_by header t = header_unlock (get_lock_position header t) t
  unlock_by footer t = footer_unlock t

  pub lock : LockType → ExclusiveLock → M (Unit {0})
  unfolding abstract_lock get_lock_position
  lock lt t = abstract_lock (get_lock_position lt t) t

  pub unlock : Consistency → LockType → ExclusiveLock → M (Unit {0})
  unfolding generate_proof version_word unlock_by
  unlock cons lt t = do
    modify (generate_proof config cons lt t.tuple_buffer t.bytes)
    modify (λ m. increment m (t.tuple_buffer + 8 * version_word cons lt t.bytes))
    unlock_by lt t
