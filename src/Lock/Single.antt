-- ===== src/Lock/Single.antt =====
-- One round of the single thread of frontend/lock.cpp, which expects every lock to succeed.
use rdma_synchronization.Common.{ℕ, ◌+◌, Bool, true, false, ◌==◌, if◌then◌else◌}
use rdma_synchronization.Rdma.Request.{
  Context, post_compare_swap, post_fetch_add, post_read, post_write,
}
use rdma_synchronization.Rdma.Memory.{Memory}
use rdma_synchronization.Rdma.Client.{
  Nic, M, ok, fails, ◌>>=◌, ◌>>◌, load, save, post, wait_completion,
}
use rdma_synchronization.Lock.Config.{
  exclusive_locked, exclusive_unlock_to_be_added, unlocked, minus_one,
}

pub record Flags : Type 0 where
  pub write : Bool
  pub unlock_write : Bool
  pub speculative_read : Bool
  pub write_combining : Bool
  pub order_release : Bool

-- What the thread captures: the queue pair, its buffer and the address of the tuple.
pub record Thread : Type 0 where
  pub rctx : Context
  pub old : ℕ
  pub addr : ℕ

-- A `throw`, or `ensure`, under a test.
abbrev pub require : Bool → M (Unit {0})
require true c = ok tt c
require false c = fails

-- `ensure(old[1] == 10)`
abbrev ensure_ten : Thread → M (Unit {0})
ensure_ten t = do v ← load (t.old + 8); require (v == 10)

module _ (nic : Nic) (others : ℕ → Memory → Memory) (flags : Flags) where
  -- `FLAGS_unlock_write`: the lock is the last word, and the write of the tuple frees it.
  write_by_footer : Thread → M (Unit {0})
  write_by_footer t = do
    post nic others (post_compare_swap unlocked exclusive_locked t.old t.rctx false (t.addr + 56))
    post nic others (post_read t.old t.rctx true t.addr 64 0)
    wait_completion
    last ← load (t.old + 56)
    require (last == exclusive_locked)
    ensure_ten t
    save (t.old + 56) 0
    post nic others (post_write t.old t.rctx false t.addr 64)

  take_lock : Thread → M (Unit {0})
  take_lock t =
      if flags.speculative_read
      then (do
        post nic others (post_compare_swap unlocked exclusive_locked t.old t.rctx false t.addr)
        post nic others (post_read t.old t.rctx true t.addr 64 0)
        wait_completion
        first ← load t.old
        require (first == exclusive_locked)
        ensure_ten t)
      else (do
        post nic others (post_compare_swap unlocked exclusive_locked t.old t.rctx true t.addr)
        wait_completion
        first ← load t.old
        require (first == unlocked)
        post nic others (post_read t.old t.rctx true t.addr 64 0)
        wait_completion
        ensure_ten t)

  give_back : Thread → M (Unit {0})
  give_back t =
      if flags.write_combining
      then (do
        post nic others (post_write t.old t.rctx false t.addr 64)
        (if flags.order_release
            then post nic others
                (post_fetch_add exclusive_unlock_to_be_added t.old t.rctx false t.addr true)
            else post nic others
                (post_fetch_add exclusive_unlock_to_be_added t.old t.rctx true t.addr false)
              >> wait_completion))
      else (do
        post nic others (post_write t.old t.rctx true t.addr 64)
        wait_completion
        post nic others (post_fetch_add exclusive_unlock_to_be_added t.old t.rctx true t.addr false)
        wait_completion)

  read_tuple : Thread → M (Unit {0})
  read_tuple t =
      if flags.speculative_read
      then (do
        post nic others (post_fetch_add 1 t.old t.rctx false t.addr false)
        post nic others (post_read t.old t.rctx true t.addr 64 0)
        wait_completion
        first ← load t.old
        require (first == 1)
        ensure_ten t)
      else (do
        post nic others (post_fetch_add 1 t.old t.rctx true t.addr false)
        wait_completion
        first ← load t.old
        require (first == unlocked)
        post nic others (post_read t.old t.rctx true t.addr 64 0)
        wait_completion
        ensure_ten t)

  release_read : Thread → M (Unit {0})
  release_read t =
      if flags.order_release
      then post nic others (post_fetch_add minus_one t.old t.rctx false t.addr true)
      else post nic others (post_fetch_add minus_one t.old t.rctx true t.addr false)
        >> wait_completion

  pub thread_round : Thread → M (Unit {0})
  unfolding write_by_footer take_lock give_back read_tuple release_read
  thread_round t =
      if flags.write
      then if flags.unlock_write then write_by_footer t else take_lock t >> give_back t
      else read_tuple t >> release_read t
