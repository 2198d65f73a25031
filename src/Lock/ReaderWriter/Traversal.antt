-- ===== src/Lock/ReaderWriter/Traversal.antt =====
-- The descent of a worker of frontend/btree.cpp from the root through `H` levels of nodes.
use rdma_synchronization.Common.{ℕ, zero, suc, ◌+◌, ◌-◌, ◌*◌, Bool, true, false, not, if◌then◌else◌}
use rdma_synchronization.Rdma.Request.{post_fetch_add, post_read}
use rdma_synchronization.Rdma.Memory.{Memory}
use rdma_synchronization.Rdma.Client.{Nic, M, pure, ◌>>=◌, ◌>>◌, post, wait_completion}
use rdma_synchronization.Lock.Config.{minus_one}
use rdma_synchronization.Lock.ReaderWriter.{Worker, s_unlock, basic_s_lock, speculative_read_s_lock}
use rdma_synchronization.Lock.ReaderWriter.Rounds.{ensure_verified}

-- The constant `B`, the padding between nodes, and the flags.
pub record Tree : Type 0 where
  pub fanout : ℕ
  pub padding : ℕ
  pub unsynchronized : Bool
  pub speculative_read : Bool
  pub order_release : Bool

-- The address of a node, and the next node after `node_id` is drawn.
pub node_addr : Tree → Worker → ℕ → ℕ → ℕ
node_addr tree t addr next_idx = addr + next_idx * t.tuple_size + next_idx * tree.padding

pub next_node : Tree → ℕ → ℕ → ℕ → ℕ
next_node tree h_i prev_id node_id = (tree.fanout * h_i + 1) + tree.fanout * prev_id + node_id

module _ (nic : Nic) (others : ℕ → Memory → Memory) (tree : Tree) where
  -- Reads the node; false is a lock that failed.
  read_node : Worker → ℕ → M Bool
  read_node t lock_addr =
      if not tree.unsynchronized
      then if tree.speculative_read
        then speculative_read_s_lock nic others t lock_addr
        else basic_s_lock nic others t lock_addr
      else post nic others (post_read (t.old + 8) t.rctx true (lock_addr + 8) (t.tuple_size - 8) 0)
        >> (wait_completion >> pure true)

  -- Here the release has its fence.
  leave_node : Worker → ℕ → M (Unit {0})
  leave_node t lock_addr =
      if not tree.unsynchronized
      then if tree.order_release
        then post nic others (post_fetch_add minus_one t.old t.rctx false lock_addr true)
        else s_unlock nic others t lock_addr
      else pure tt

  -- The levels from `h_i` on; `node_ids` is what the random generator gives on each level. After a
  -- failed lock the loop goes on with the next `h_i` and the same node.
  levels : ℕ → ℕ → ℕ → ℕ → (ℕ → ℕ) → Worker → ℕ → M (Unit {0})
  levels zero h_i next_idx prev_id node_ids t addr = pure tt
  levels (suc n) h_i next_idx prev_id node_ids t addr =
      let lock_addr = node_addr tree t addr next_idx in
      let same = levels n (h_i + 1) next_idx prev_id node_ids t addr in
      let next = next_node tree h_i prev_id (node_ids h_i) in
      let down = levels n (h_i + 1) next (node_ids h_i) node_ids t addr in
      read_node t lock_addr >>= λ locked.
      if not locked then same else ensure_verified t >> (leave_node t lock_addr >> down)

  pub traverse : ℕ → (ℕ → ℕ) → Worker → ℕ → M (Unit {0})
  unfolding levels read_node leave_node
  traverse height node_ids t addr = levels height 0 0 0 node_ids t addr
