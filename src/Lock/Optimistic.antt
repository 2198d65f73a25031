-- ===== src/Lock/Optimistic.antt =====
-- `OptimisticLock` of frontend/OptimisticLocks.hpp: a reader that takes no lock and validates what it
-- read. `prev_version` is an argument and, for `lock`, the result.
pub mod Validate
pub mod Writers
pub mod Reads
pub mod Snapshot
pub mod Header
use rdma_synchronization.Common.{
  ℕ, ◌+◌, ◌-◌, ◌*◌, ◌/◌, ◌%◌, Bool, true, false, not, Option, none, some, ◌==◌, ltb, if◌then◌else◌,
}
use rdma_synchronization.Rdma.Request.{Context, post_read, post_read_fenced}
use rdma_synchronization.Rdma.Memory.{Memory}
use rdma_synchronization.Rdma.Client.{
  Nic, Client, World, M, pure, ◌>>=◌, ◌>>◌, ok, restart, restart_if, load, save, post, for_from,
  wait_completion, wait_all,
}
use rdma_synchronization.Lock.Config.{
  Config, Consistency, farm, crc, v2, broken, rc, LockType, header, footer, w_unlocked,
}
use rdma_synchronization.Lock.Farm
use rdma_synchronization.Lock.Crc
use rdma_synchronization.Lock.Exclusive.{lock_word}

-- The members of `OptimisticLock`; `rctx2_mr` says that `rctx2` has a memory region.
pub record OptimisticLock : Type 0 where
  pub rctx : Context
  pub rctx2 : Context
  pub rctx2_mr : Bool
  pub remote_address : ℕ
  pub tuple_buffer : ℕ
  pub rc_buffer : ℕ
  pub bytes : ℕ
  pub opnum : ℕ

-- A check that only reads the buffer or writes `user_buffer`, and throws on `none`.
abbrev checked : (Memory → Option Memory) → M (Unit {0})
checked f c = elim (f c.world.local) [
  | none ↦ restart c
  | some m ↦ ok tt (record c { world = record c.world { local = m } })
]

-- `rctx` where the number is even, else the other.
abbrev alternate : ℕ → Context → Context → Context
alternate i even odd = if i % 2 == 0 then even else odd

module _ (nic : Nic) (others : ℕ → Memory → Memory) (config : Config) where
  pub check_lock : LockType → OptimisticLock → M (Unit {0})
  check_lock lt t = do
    lck ← load (t.tuple_buffer + 8 * lock_word lt t.bytes)
    restart_if (not (lck == w_unlocked))

  -- The index of the version under `V2` with the lock in the footer.
  abbrev version_index : OptimisticLock → ℕ
  version_index t = (t.bytes - 16) / 8

  lock_v2 : LockType → OptimisticLock → M ℕ
  unfolding check_lock
  lock_v2 header t = do
    post nic others (post_read_fenced t.tuple_buffer t.rctx true t.remote_address 16 0)
    wait_completion
    post nic others
        (post_read (t.tuple_buffer + 16) t.rctx true (t.remote_address + 16) (t.bytes - 16) 0)
    wait_completion
    prev_version ← load t.tuple_buffer
    check_lock header t
    pure prev_version
  lock_v2 footer t = do
    let byte_offset = t.bytes - 16
    let at = t.tuple_buffer + 8 * version_index t
    save at 0
    save (at + 8) 0
    post nic others (post_read_fenced at t.rctx true (t.remote_address + byte_offset) 16 0)
    wait_completion
    post nic others (post_read t.tuple_buffer t.rctx true t.remote_address byte_offset 0)
    wait_completion
    prev_version ← load at
    check_lock footer t
    pure prev_version

  lock_broken : OptimisticLock → M (Unit {0})
  lock_broken t = do
    for_from 0 config.batch_size
        (λ i. post nic others (post_read t.tuple_buffer t.rctx true t.remote_address t.bytes 0))
    wait_all config.batch_size

  lock_rc : OptimisticLock → M (Unit {0})
  lock_rc t =
      let read = λ (ctx : Context).
        post nic others (post_read t.tuple_buffer ctx false t.remote_address t.bytes 0) in
      if t.rctx2_mr
      then if ltb 1 config.batch_size
        then for_from 0 config.batch_size (λ i. read (alternate i t.rctx t.rctx2))
        else read (alternate t.opnum t.rctx t.rctx2)
      else for_from 0 config.batch_size (λ i. read t.rctx)

  lock_farm : OptimisticLock → M (Unit {0})
  lock_farm t = do
    for_from 0 config.batch_size
        (λ i. post nic others (post_read t.tuple_buffer t.rctx true t.remote_address t.bytes 0))
    wait_all config.batch_size
    for_from 0 config.batch_size (λ i. checked (Farm.check config t.tuple_buffer t.bytes))

  -- Where the checksum stands: behind the version, or behind the version and the lock.
  abbrev crc_address : LockType → OptimisticLock → ℕ
  crc_address header t = t.tuple_buffer + 16
  crc_address footer t = t.tuple_buffer + 8

  lock_crc : LockType → OptimisticLock → M ℕ
  unfolding check_lock
  lock_crc lt t = do
    post nic others (post_read t.tuple_buffer t.rctx true t.remote_address t.bytes 0)
    wait_completion
    prev_version ← load t.tuple_buffer
    check_lock lt t
    checked (Crc.check config (crc_address lt t) (t.bytes - 16))
    pure prev_version

  pub lock : Consistency → LockType → OptimisticLock → ℕ → M ℕ
  unfolding lock_v2 lock_broken lock_rc lock_farm lock_crc
  lock v2 lt t prev_version = lock_v2 lt t
  lock broken lt t prev_version = lock_broken t >> pure prev_version
  lock rc lt t prev_version = lock_rc t >> pure prev_version
  lock farm lt t prev_version = lock_farm t >> pure prev_version
  lock crc lt t prev_version = lock_crc lt t

  -- The address of `v_version`.
  pub version_address : Consistency → LockType → OptimisticLock → ℕ
  version_address v2 footer t = t.tuple_buffer + 8 * version_index t
  version_address cons lt t = t.tuple_buffer

  -- `unlock` reads the version again, compares, and checks the lock word in the buffer.
  validate : Consistency → LockType → OptimisticLock → ℕ → M (Unit {0})
  unfolding version_address
  validate cons lt t prev_version = do
    wait_completion
    version ← load (version_address cons lt t)
    restart_if (not (prev_version == version))

  unlock_rc : OptimisticLock → M (Unit {0})
  unlock_rc t =
      let read =
        λ (ctx : Context). post nic others (post_read t.rc_buffer ctx true t.remote_address 8 0) in
      if t.rctx2_mr
      then if ltb 1 config.batch_size
        then for_from 0 config.batch_size (λ i. read (alternate i t.rctx2 t.rctx))
          >> wait_all (config.batch_size / 2)
          >> wait_all (config.batch_size / 2)
        else read (alternate t.opnum t.rctx2 t.rctx) >> wait_completion
      else for_from 0 config.batch_size (λ i. read t.rctx) >> wait_all config.batch_size

  unlock_reads : Consistency → LockType → OptimisticLock → ℕ → M (Unit {0})
  unfolding validate unlock_rc
  unlock_reads v2 header t prev = do
    post nic others (post_read t.tuple_buffer t.rctx true t.remote_address 8 0)
    validate v2 header t prev
  unlock_reads v2 footer t prev = do
    let byte_offset = t.bytes - 16
    let at = t.tuple_buffer + 8 * version_index t
    post nic others (post_read at t.rctx true (t.remote_address + byte_offset) 16 0)
    validate v2 footer t prev
  unlock_reads rc lt t prev = unlock_rc t
  unlock_reads farm lt t prev = pure tt
  unlock_reads broken lt t prev = do
    for_from 0 config.batch_size
        (λ i. post nic others (post_read t.tuple_buffer t.rctx true t.remote_address 8 0))
    wait_all config.batch_size
  unlock_reads crc lt t prev = do
    post nic others (post_read t.tuple_buffer t.rctx true t.remote_address 8 0)
    validate crc lt t prev

  -- Returns `{prev_version, *v_version}`.
  pub unlock : Consistency → LockType → OptimisticLock → ℕ → M (ℕ × ℕ)
  unfolding unlock_reads check_lock version_address
  unlock cons lt t prev_version = do
    unlock_reads cons lt t prev_version
    check_lock lt t
    version ← load (version_address cons lt t)
    pure (prev_version, version)
