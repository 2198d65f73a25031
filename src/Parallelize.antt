-- ===== src/Parallelize.antt =====
-- `Parallelize::parallelRange` of backend/nam/utils/Parallelize.hpp: which part of a range each worker
-- of a `WorkerGroup` gets.
pub mod Partition
use rdma_synchronization.Common.{
  ℕ, zero, suc, ◌+◌, ◌-◌, ◌*◌, ◌/◌, Bool, Option, none, some, List, [], ◌∷◌, ◌==◌, if◌then◌else◌,
}

-- What worker `workerId` calls the function with.
unfoldable pub block : ℕ → ℕ → ℕ → ℕ × ℕ
block threads n worker_id =
    let block_size = n / threads in
    let begin = worker_id * block_size in
    let end = begin + block_size in (begin, if worker_id == threads - 1 then n else end)

-- The workers `w`, `w + 1`, … of a group, `count` of them.
unfoldable pub workers : ℕ → ℕ → ℕ → ℕ → List (ℕ × ℕ)
workers threads n zero w = []
workers threads n (suc count) w = block threads n w ∷ workers threads n count (w + 1)

-- `none` is an exception of the two `ensure`.
unfoldable pub parallel_range : ℕ → ℕ → Option (List (ℕ × ℕ))
parallel_range threads n =
    if threads == 0
    then none
    else if n / threads == 0
    then none
    else some (workers threads n threads 0)
