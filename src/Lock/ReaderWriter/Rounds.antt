-- ===== src/Lock/ReaderWriter/Rounds.antt =====
-- One round of the loops of a worker in frontend/locking_benchmark.cpp: a read or a write of one tuple.
-- False asks for another round.
use rdma_synchronization.Common.{
  ℕ, ◌+◌, ◌-◌, ◌*◌, ◌/◌, ◌<◌, ◌≤◌, ◌≡◌, ap, ◌∙◌, Bool, true, false, not, some, List, ◌∷◌,
  if◌then◌else◌, arith,
}
use rdma_synchronization.Rdma.Request.{post_write}
use rdma_synchronization.Rdma.Memory.{Memory, store, copy, copy_inside}
use rdma_synchronization.Rdma.Client.{
  Nic, IsVerbs, Client, Poll, Returns, M, ok, fails, pure, ◌>>=◌, ◌>>◌, modify, post,
  wait_completion, wait_list, write_lem, faa_lem,
}
use rdma_synchronization.Lock.ReaderWriter.{
  Worker, x_unlock, basic_x_lock, speculative_read_x_lock, write_combining, x_order_release,
  s_unlock, basic_s_lock, speculative_read_s_lock, s_order_release,
}
use rdma_synchronization.Lock.ReaderWriter.Tuple.{increment_tuple, verify}
use rdma_synchronization.Lock.ReaderWriter.System.{Request, next_word}

-- The flags that choose between the variants.
pub record Flags : Type 0 where
  pub speculative_read : Bool
  pub write_combining : Bool
  pub order_release : Bool

-- `throw` without an exception, where the words of the tuple differ.
pub ensure_verified : Worker → M (Unit {0})
ensure_verified t c = if verify t.old t.tuple_size c.world.local then ok tt c else fails

module _ (nic : Nic) (others : ℕ → Memory → Memory) (flags : Flags) where
  read_unlock : Worker → ℕ → M (Unit {0})
  read_unlock t a =
      if flags.order_release then s_order_release nic others t a else s_unlock nic others t a

  pub read_round : Worker → ℕ → M Bool
  unfolding ensure_verified read_unlock
  read_round t a = do
    locked ←
        (if flags.speculative_read
          then speculative_read_s_lock nic others t a
          else basic_s_lock nic others t a)
    (if not locked then pure false else ensure_verified t >> (read_unlock t a >> pure true))

  write_back : Worker → ℕ → M (Unit {0})
  write_back t a =
      if flags.write_combining
      then if flags.order_release
        then x_order_release nic others t a
        else write_combining nic others t a
      else post nic others (post_write (t.old + 8) t.rctx true (a + 8) (t.tuple_size - 8))
        >> wait_completion
        >> x_unlock nic others t a

  pub write_round : Worker → ℕ → M Bool
  unfolding write_back
  write_round t a = do
    locked ←
        (if flags.speculative_read
          then speculative_read_x_lock nic others t a
          else basic_x_lock nic others t a)
    (if not locked
        then pure false
        else modify (increment_tuple t.old t.tuple_size) >> (write_back t a >> pure true))

module _ (nic : Nic) (verbs : IsVerbs nic) (others : ℕ → Memory → Memory) where
  -- With a completion to come, `write_combining` returns, with the words of the buffer in the remote
  -- tuple and the lock word that it fetched taken to the one after an exclusive unlock, if no other
  -- client writes the tuple between the write and the fetch-and-add.
  pub write_combining-publishes :
      (t : Worker) (a : ℕ) (c : Client) (i : ℕ) (status : Bool) (more : List Bool)
      (rest : List Poll)
      → c.polls ≡ some (status ∷ more) ∷ rest
      → ((m : Memory) (j : ℕ) → 1 ≤ j → others (c.now + 1) m (a + 8 * j) ≡ m (a + 8 * j))
      → 1 ≤ i
      → i < t.tuple_size / 8
      → Returns (write_combining nic others t a c) (λ c'.
        (c'.world.remote (a + 8 * i) ≡ c.world.local (t.old + 8 * i))
        × (c'.world.remote a ≡ next_word Request.x_unlock (c'.world.local t.old)))
  unfolding write_combining x_unlock next_word wait_completion wait_list
  write_combining-publishes t a c i status more rest polls leaves low high =
      rw (write_lem nic others verbs, faa_lem nic others verbs) (rw polls (kept, word))
    where
      n : ℕ
      n = (t.tuple_size - 8) / 8

      written : Memory
      written = copy n c.world.local (t.old + 8) (others c.now c.world.remote) (a + 8)

      r : Memory
      r = others (c.now + 1) written

      next : ℕ
      next = next_word Request.x_unlock (r a)

      inside : written (a + 8 * i) ≡ c.world.local (t.old + 8 * i)
      inside =
          ap written (omega arith)
          ∙ copy_inside n c.world.local (t.old + 8) (others c.now c.world.remote) (a + 8) (i - 1)
              (omega arith)
          ∙ ap c.world.local (omega arith)

      kept : store r a next (a + 8 * i) ≡ c.world.local (t.old + 8 * i)
      kept = ground (arith, leaves written i low, inside)

      word : store r a next a ≡ next_word Request.x_unlock (store c.world.local t.old (r a) t.old)
      word = ground arith
