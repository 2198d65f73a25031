-- ===== src/Lock/Tail.antt =====
-- The reader-writer lock of frontend/locking_benchmark_tail.cpp, in the last word of a tuple: a writer
-- sets the lowest bit, a reader adds 2, and a writer frees the lock by writing the whole tuple.
pub mod System
pub mod Safety
pub mod Word
use rdma_synchronization.Common.{
  ℕ, ◌+◌, ◌-◌, ◌%◌, ◌^◌, Bool, true, false, not, none, some, List, [], ◌∷◌, ◌==◌, if◌then◌else◌,
  bit_and,
}
use rdma_synchronization.Common.Word.{add_u64}
use rdma_synchronization.Rdma.Request.{
  Context, post_compare_swap, post_fetch_add, post_read, post_write,
}
use rdma_synchronization.Rdma.Memory.{Memory, store}
use rdma_synchronization.Rdma.Client.{
  Nic, Client, Poll, Result, M, ok, fails, waits, pure, ◌>>=◌, ◌>>◌, load, save, modify, post,
}
use rdma_synchronization.Lock.Config.{unlocked}
use rdma_synchronization.Lock.ReaderWriter.Tuple.{fill, verify_from}

abbrev pub tuple_size : ℕ
tuple_size = 64

abbrev pub lock_offset_byte : ℕ
lock_offset_byte = 56

abbrev pub lock_offset_index : ℕ
lock_offset_index = 7

-- `int64_t{-2}` as the `uint64_t` that a fetch-and-add takes.
abbrev pub minus_two : ℕ
minus_two = 2 ^ 64 - 2

-- `poll_cq` over the results that the polls give: it throws unless the completion is a success.
pub poll_list : List Poll → Client → Result (Unit {0})
poll_list [] c = waits
poll_list (none ∷ rest) c = fails
poll_list (some [] ∷ rest) c = poll_list rest c
poll_list (some (status ∷ more) ∷ rest) c =
    if status then ok tt (record c { polls = rest }) else fails

pub poll_cq : M (Unit {0})
unfolding poll_list
poll_cq c = poll_list c.polls c

-- What the functions capture: the queue pair and the buffer, and the flags.
pub record Worker : Type 0 where
  pub rctx : Context
  pub old : ℕ
  pub speculative_read : Bool
  pub order_release : Bool

module _ (nic : Nic) (others : ℕ → Memory → Memory) where
  pub basic_x_lock : Worker → ℕ → M Bool
  unfolding poll_cq
  basic_x_lock t lock_addr = do
    post nic others (
        post_compare_swap unlocked 1 (t.old + lock_offset_byte) t.rctx true
          (lock_addr + lock_offset_byte))
    poll_cq
    x_locked ← load (t.old + lock_offset_byte)
    (if not (x_locked == unlocked)
        then pure false
        else post nic others (post_read t.old t.rctx true lock_addr tuple_size 0)
          >> (poll_cq >> pure true))

  pub speculative_read_x_lock : Worker → ℕ → M Bool
  unfolding poll_cq
  speculative_read_x_lock t lock_addr = do
    post nic others (
        post_compare_swap unlocked 1 (t.old + lock_offset_byte) t.rctx false
          (lock_addr + lock_offset_byte))
    post nic others (post_read t.old t.rctx true lock_addr (tuple_size - 8) 0)
    poll_cq
    x_locked ← load (t.old + lock_offset_byte)
    pure (x_locked == unlocked)

  pub s_unlock : Worker → ℕ → M (Unit {0})
  unfolding poll_cq
  s_unlock t lock_addr = do
    post nic others (
        post_fetch_add minus_two (t.old + lock_offset_byte) t.rctx true
          (lock_addr + lock_offset_byte) false)
    poll_cq

  -- A reader that fails leaves the 2 that it has added.
  pub basic_s_lock : Worker → ℕ → M Bool
  unfolding poll_cq
  basic_s_lock t lock_addr = do
    post nic others (
        post_fetch_add 2 (t.old + lock_offset_byte) t.rctx true (lock_addr + lock_offset_byte)
          false)
    poll_cq
    s_locked ← load (t.old + lock_offset_byte)
    (if bit_and s_locked 1 == 1
        then pure false
        else post nic others (post_read t.old t.rctx true lock_addr (tuple_size - 8) 0)
          >> (poll_cq >> pure true))

  pub speculative_read_s_lock : Worker → ℕ → M Bool
  unfolding poll_cq
  speculative_read_s_lock t lock_addr = do
    post nic others (
        post_fetch_add 2 (t.old + lock_offset_byte) t.rctx false (lock_addr + lock_offset_byte)
          false)
    post nic others (post_read t.old t.rctx true lock_addr (tuple_size - 8) 0)
    poll_cq
    s_locked ← load (t.old + lock_offset_byte)
    pure (not (bit_and s_locked 1 == 1))

  -- The address is that of the source, with the index of the lock word for its offset.
  pub s_order_release : Worker → ℕ → M (Unit {0})
  s_order_release t lock_addr = post nic others (
      post_fetch_add minus_two (t.old + lock_offset_byte) t.rctx false
        (lock_addr + lock_offset_index) true)

  -- `throw` without an exception, where the words of the tuple differ.
  ensure_verified : Worker → M (Unit {0})
  ensure_verified t c =
      if verify_from lock_offset_index 0 (c.world.local t.old) t.old c.world.local
      then ok tt c
      else fails

  -- One round of the loop that reads; false is `continue`.
  unfoldable read_round : Worker → ℕ → M Bool
  unfolding basic_s_lock speculative_read_s_lock s_unlock s_order_release ensure_verified
  read_round t a = do
    locked ← (if t.speculative_read then speculative_read_s_lock t a else basic_s_lock t a)
    (if not locked
        then pure false
        else ensure_verified t
          >> ((if t.order_release then s_order_release t a else s_unlock t a) >> pure true))

  -- `++old[0]`, and the new version in all words but the last.
  increment_tuple : Worker → Memory → Memory
  increment_tuple t m =
      let new_version = add_u64 (m t.old) 1 in
      fill lock_offset_index 0 t.old new_version (store m t.old new_version)

  -- The write back, which unlocks.
  pub x_unlock : Worker → ℕ → M (Unit {0})
  unfolding poll_cq
  x_unlock t lock_addr = do
    save (t.old + lock_offset_byte) 0
    (if t.order_release
        then post nic others (post_write t.old t.rctx false lock_addr tuple_size)
        else post nic others (post_write t.old t.rctx true lock_addr tuple_size) >> poll_cq)

  -- One round of the loop that writes.
  unfoldable write_round : Worker → ℕ → M Bool
  unfolding basic_x_lock speculative_read_x_lock increment_tuple x_unlock
  write_round t a = do
    locked ← (if t.speculative_read then speculative_read_x_lock t a else basic_x_lock t a)
    (if not locked then pure false else modify (increment_tuple t) >> (x_unlock t a >> pure true))
