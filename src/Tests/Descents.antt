-- ===== src/Tests/Descents.antt =====
-- A descent of frontend/opt_btree.cpp that draws 5 on each level, and the writes of
-- frontend/broken_remote_write.cpp.
use rdma_synchronization.Common.{ℕ, ◌+◌, ◌*◌, ◌<◌, ◌≤◌, ◌≡◌, some, arith, length}
use rdma_synchronization.Rdma.Client.{pure, ◌>>=◌}
use rdma_synchronization.Benchmark.{Counters}
use rdma_synchronization.Benchmark.Pacing.{SendQueue, empty_queue, write_many}
use rdma_synchronization.Benchmark.Pacing.Bounds.{write_many_returns}
use rdma_synchronization.Benchmark.Traversal.{traverse}
use rdma_synchronization.Benchmark.Traversal.Path.{child, Inside, visit, traverse_lem}
use rdma_synchronization.Tests.Locks.{card, quiet, config, reader}

abbrev counted : Counters
counted = record { updates = 0; reads = 0; aborts = 0 }

abbrev four : ℕ
four = 4

abbrev five : ℕ
five = 5

traverse_example :
    (traverse card quiet config 9 reader 64 0 (λ h. 5) counted ≡ (
      visit card quiet config 9 reader 64 0 0 counted >>= λ k1.
      visit card quiet config 9 reader 64 0 6 k1 >>= λ k2.
      visit card quiet config 9 reader 64 0 1500 k2 >>= λ k3. pure k3))
    × (Inside 64 64 0 0 × Inside 64 64 0 6 × Inside 64 64 0 1500)
    × (child 6 5 ≡ child (child 0 4) 5 → (five ≡ four) × (five ≡ five))
traverse_example =
    traverse_lem card quiet config 9 reader 64 0 (λ h. 5) 4 5 counted (λ h. omega arith)
      (omega arith) (omega arith)

-- 20 writes, of which one in 16 is signaled.
writes_example :
    (s : SendQueue) × (write_many 15 20 empty_queue ≡ some s)
    × (length s.pending ≤ 1)
    × (s.wqe ≡ 20)
    × (20 < s.retired + 2 * 16)
writes_example = write_many_returns 4 20 (omega arith)
