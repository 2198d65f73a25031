-- ===== src/Benchmark/Pacing.antt =====
-- How the writers of frontend/broken_remote_write.cpp and frontend/torn_writes.cpp wait for their writes:
-- one of `write_speed` writes is signaled, and one poll follows for it. For each signaled write that is
-- done the network card has one completion, in the order of the writes.
pub mod Bounds
use rdma_synchronization.Common.{
  ℕ, zero, suc, ◌+◌, Option, none, some, List, [], ◌∷◌, ◌++◌, ◌==◌, if◌then◌else◌, bit_and,
}
use rdma_synchronization.Common.Options.{◌>>=◌}
use rdma_synchronization.Common.Word.{add_u64}

-- `wqe`, the numbers of the signaled writes whose completions are to come, and how many writes are known
-- to be done, which no code reads.
pub record SendQueue : Type 0 where
  pub wqe : ℕ
  pub pending : List ℕ
  pub retired : ℕ

abbrev pub empty_queue : SendQueue
empty_queue = record { wqe = 0; pending = []; retired = 0 }

-- The choice of `signal` and `postWrite`.
unfoldable pub post_one : ℕ → SendQueue → SendQueue
post_one mask s = record s {
  wqe = add_u64 s.wqe 1;
  pending = if bit_and s.wqe mask == 0 then s.pending ++ (s.wqe ∷ []) else s.pending;
}

-- The poll loop; `none` is a loop that no completion ends. A completion also says that the writes before
-- its own are done.
unfoldable pub poll_pending : List ℕ → SendQueue → Option SendQueue
poll_pending [] s = none
poll_pending (i ∷ rest) s = some (record s { pending = rest; retired = i + 1 })

-- One round of the loop of the writer, with `mask` for `SIGNAL_`.
unfoldable pub write_once : ℕ → SendQueue → Option SendQueue
unfolding post_one poll_pending
write_once mask s =
    let s1 = post_one mask s in
    if bit_and s1.wqe mask == mask then poll_pending s1.pending s1 else some s1

unfoldable pub write_many : ℕ → ℕ → SendQueue → Option SendQueue
unfolding write_once
write_many mask zero s = some s
write_many mask (suc n) s = do s1 ← write_once mask s; write_many mask n s1
