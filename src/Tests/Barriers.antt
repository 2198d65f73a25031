-- ===== src/Tests/Barriers.antt =====
-- Two threads at a barrier.
use rdma_synchronization.Common.{ℕ, ◌<◌, ◌≤◌, ◌≢◌, Bool, true, List, [], ◌∷◌, arith, get_or}
use rdma_synchronization.Concurrency.{fresh, wait, init, run}
use rdma_synchronization.Concurrency.Safety.{comes, goes_on, none_passes_early, some_thread_moves}

-- The first thread comes and spins; the second is the last and is about to call its finalizer.
abbrev both : List (ℕ × Bool)
both = (0, true) ∷ (0, true) ∷ (1, true) ∷ (1, true) ∷ (1, true) ∷ []

none_passes_early_example :
    goes_on (get_or (run both (init 2)).threads 1 fresh)
    ≤ comes (get_or (run both (init 2)).threads 0 fresh)
none_passes_early_example =
    none_passes_early 2 both (omega arith) (omega arith) 1 0 (omega arith) (omega arith)

some_thread_moves_example :
    (i : ℕ) × (i < 2)
    × ((wait true (run both (init 2)).barrier (get_or (run both (init 2)).threads i fresh).0).1
        ≢ (get_or (run both (init 2)).threads i fresh).0)
some_thread_moves_example = some_thread_moves 2 both (omega arith) (omega arith) true
