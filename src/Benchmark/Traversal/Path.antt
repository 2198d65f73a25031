-- ===== src/Benchmark/Traversal/Path.antt =====
-- Which nodes the descent of frontend/opt_btree.cpp reads.
use rdma_synchronization.Common.{ℕ, ◌+◌, ◌*◌, ◌<◌, ◌≤◌, ◌≡◌, refl, arith}
use rdma_synchronization.Common.Products.{scaled-le}
use rdma_synchronization.Rdma.Memory.{Memory}
use rdma_synchronization.Rdma.Client.{Nic, M, pure, ◌>>=◌}
use rdma_synchronization.Lock.Config.{Config}
use rdma_synchronization.Lock.Optimistic.{OptimisticLock}
use rdma_synchronization.Benchmark.{Counters, repeat}
use rdma_synchronization.Benchmark.Traversal.{
  fanout, node_address, next_node, visit_attempt, node_lock, descend, traverse,
}

-- Child `j` of node `i`, where the nodes of a tree are numbered level by level.
abbrev pub child : ℕ → ℕ → ℕ
child i j = fanout * i + 1 + j

-- The number of nodes on the levels.
abbrev pub nodes : ℕ
nodes = 1 + fanout + fanout * fanout

-- All bytes of node `i`, with the padding behind it, are among those of the nodes.
abbrev pub Inside : ℕ → ℕ → ℕ → ℕ → Type 0
Inside addr size padding i =
    node_address addr size padding i + (size + padding) ≤ addr + nodes * (size + padding)

below-Inside : (addr size padding i : ℕ) → i < nodes → Inside addr size padding i
below-Inside addr size padding i lt = omega (
  arith,
  scaled-le (i + 1) nodes size (omega arith),
  scaled-le (i + 1) nodes padding (omega arith),
)

module _ (nic : Nic) (others : ℕ → Memory → Memory) (config : Config) (fuel : ℕ) where
  -- The attempts to read one node, until one does not restart.
  abbrev pub visit : OptimisticLock → ℕ → ℕ → ℕ → Counters → M Counters
  visit t addr padding i =
      repeat fuel
        (visit_attempt nic others config fuel (node_lock nic others config fuel t addr padding i))

  -- The descent visits the root, the child of it that is drawn first, and the child of that one that is
  -- drawn second, whatever the visits do. These nodes lie in the memory of the nodes, and another path
  -- ends at another node.
  pub traverse_lem :
      (t : OptimisticLock) (addr padding : ℕ) (node_ids : ℕ → ℕ) (j0 j1 : ℕ) (k : Counters)
      → ((h : ℕ) → node_ids h < fanout)
      → j0 < fanout
      → j1 < fanout
      → let id0 = node_ids 0 in
        let id1 = node_ids 1 in
        let middle = child 0 id0 in
        let leaf = child middle id1 in
        (traverse nic others config fuel t addr padding node_ids k ≡ (
          visit t addr padding 0 k >>= λ k1.
          visit t addr padding middle k1 >>= λ k2. visit t addr padding leaf k2 >>= λ k3. pure k3))
        × (Inside addr t.bytes padding 0
            × Inside addr t.bytes padding middle
            × Inside addr t.bytes padding leaf)
        × (leaf ≡ child (child 0 j0) j1 → (id0 ≡ j0) × (id1 ≡ j1))
  unfolding traverse descend
  traverse_lem t addr padding node_ids j0 j1 k drawn l0 l1 = (
    rw (first, second) refl,
    (
      below-Inside addr t.bytes padding 0 (omega arith),
      below-Inside addr t.bytes padding middle (omega (arith, drawn 0)),
      below-Inside addr t.bytes padding leaf (omega (arith, drawn 0, drawn 1)),
    ),
    λ e. (omega (arith, drawn 0, drawn 1), omega (arith, drawn 0, drawn 1)),
  )
    where
      id0 : ℕ
      id0 = node_ids 0

      id1 : ℕ
      id1 = node_ids 1

      middle : ℕ
      middle = child 0 id0

      leaf : ℕ
      leaf = child middle id1

      first : next_node 0 0 id0 ≡ middle
      first = omega arith

      second : next_node 1 id0 id1 ≡ leaf
      second = omega arith
