-- ===== src/Worker/Numbers.antt =====
-- The numbers that workers tell the storage nodes.
use rdma_synchronization.Common.{ℕ, ◌+◌, ◌*◌, ◌^◌, ◌<◌, ◌≤◌, ◌≡◌, ◌⊎◌, inl, inr, ap, arith}
use rdma_synchronization.Common.Products.{scaled-le}
use rdma_synchronization.Worker.{thread_id}

later_node : (n m w : ℕ) → n < m → n * w + w ≤ m * w
later_node n m w lt = omega (arith, scaled-le (n + 1) m w (omega arith))

-- Workers of one node, and of different nodes, have different numbers.
pub thread_id-distinct :
    (workers i j n m : ℕ)
    → i < workers
    → j < workers
    → n * workers + workers < 2 ^ 64
    → m * workers + workers < 2 ^ 64
    → thread_id workers i n ≡ thread_id workers j m
    → (i ≡ j) × (n ≡ m)
unfolding thread_id
thread_id-distinct workers i j n m li lj fn fm e = elim (compare_cases n m) [
  | inl lt ↦ absurd (omega (arith, sums, later_node n m workers lt))
  | inr (inl same) ↦ (omega (arith, sums, ap (λ (x : ℕ). x * workers) same), same)
  | inr (inr lt) ↦ absurd (omega (arith, sums, later_node m n workers lt))
]
  where
    sums : i + n * workers ≡ j + m * workers
    sums = omega (arith, e)

    compare_cases : (a b : ℕ) → (a < b) ⊎ ((a ≡ b) ⊎ (b < a))
    compare_cases a b = ground arith
