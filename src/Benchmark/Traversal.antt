-- ===== src/Benchmark/Traversal.antt =====
-- The descent of a worker of frontend/opt_btree.cpp from the root through the levels of a tree, with
-- optimistic locks. The node that is taken on each level is drawn, an argument here.
pub mod Path
use rdma_synchronization.Common.{ℕ, zero, suc, ◌+◌, ◌*◌, ◌/◌, if◌then◌else◌}
use rdma_synchronization.Rdma.Memory.{Memory}
use rdma_synchronization.Rdma.Client.{Nic, M, ok, fails, pure, ◌>>=◌, ◌>>◌}
use rdma_synchronization.Lock.Config.{Config, farm, footer}
use rdma_synchronization.Lock.Optimistic.{OptimisticLock}
use rdma_synchronization.Benchmark.{Counters, repeat, all_equal, read_attempt}

-- `B` and `H`
abbrev pub fanout : ℕ
fanout = 249

abbrev pub height : ℕ
height = 3

-- `lock_addr`
abbrev pub node_address : ℕ → ℕ → ℕ → ℕ → ℕ
node_address addr tuple_size padding next_idx = addr + next_idx * tuple_size + next_idx * padding

-- `next_idx`
abbrev pub next_node : ℕ → ℕ → ℕ → ℕ
next_node h_i prev_id node_id = (fanout * h_i + 1) + fanout * prev_id + node_id

module _ (nic : Nic) (others : ℕ → Memory → Memory) (config : Config) (fuel : ℕ) where
  -- What is in the `try`: the read, and an exception where words 3, 4 and 5 of the lines differ.
  pub visit_attempt : OptimisticLock → M (Unit {0})
  visit_attempt t = read_attempt nic others config fuel farm footer t >> (λ c.
      let m = c.world.local in
      if all_equal t.tuple_buffer (m (t.tuple_buffer + 8 * 3)) (t.bytes / 64) 0 m
      then ok tt c
      else fails)

  -- The lock of one node; `t` has the buffer and the size of a node.
  abbrev pub node_lock : OptimisticLock → ℕ → ℕ → ℕ → OptimisticLock
  node_lock t addr padding next_idx = record t {
    remote_address = node_address addr t.bytes padding next_idx;
  }

  -- `n` levels from `h_i` on.
  unfoldable pub descend : OptimisticLock → ℕ → ℕ → (ℕ → ℕ) → ℕ → ℕ → ℕ → ℕ → Counters → M Counters
  descend t addr padding node_ids zero h_i next_idx prev_id k = pure k
  descend t addr padding node_ids (suc n) h_i next_idx prev_id k = do
    k1 ← repeat fuel (visit_attempt (node_lock t addr padding next_idx)) k
    descend t addr padding node_ids n (h_i + 1) (next_node h_i prev_id (node_ids h_i))
        (node_ids h_i) k1

  unfoldable pub traverse : OptimisticLock → ℕ → ℕ → (ℕ → ℕ) → Counters → M Counters
  unfolding descend
  traverse t addr padding node_ids k = descend t addr padding node_ids height 0 0 0 k
