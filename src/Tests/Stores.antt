-- ===== src/Tests/Stores.antt =====
-- A storage node with one memory region, and the CPUs of a machine.
use rdma_synchronization.Common.{
  ℕ, ◌≤◌, ◌≡◌, refl, true, none, some, List, [], ◌∷◌, arith, All, replicate, count,
}
use mathlib.Core.List.{map}
use rdma_synchronization.Common.Options.{Returns}
use rdma_synchronization.Connection.{worker}
use rdma_synchronization.Storage.{Storage, InitMessage, lookup, drop, wait_for, start_and_connect}
use rdma_synchronization.Storage.Catalog.{IsValid, Tells, start_and_connect_lem}
use rdma_synchronization.CoreManager.{new_core_manager}
use rdma_synchronization.CoreManager.Pinning.{
  to_core, to_ht, any, round_robin, pin_all, pinned_once,
}
use rdma_synchronization.Parallelize.{parallel_range}
use rdma_synchronization.Parallelize.Partition.{all_indices, indices, parallel_range_lem}

abbrev new : Storage
new = record { node_id = 0; catalog = []; served_connections = 0; regions = 0 }

new-IsValid : IsValid new
unfolding IsValid
new-IsValid = refl

nothing_there : lookup 3 new.catalog ≡ none
unfolding lookup
nothing_there = refl

abbrev one_region : Storage
one_region = record new {
  catalog = (3, record { start = 4096; size_bytes = 64; region_id = 0 }) ∷ [];
  regions = 1;
}

one_region-IsValid : IsValid one_region
unfolding IsValid
one_region-IsValid = (refl, refl)

abbrev buffer : InitMessage
buffer = record {
  node_id = 0;
  thread_id = 0;
  num_regions = 0;
  mem_regions = replicate 10 (record { offset = 0; size_bytes = 0 });
}

two_seen : wait_for 2 (1 ∷ 2 ∷ []) ≡ true
unfolding wait_for
two_seen = refl

start_and_connect_example :
    Returns
      (start_and_connect 2 (1 ∷ 2 ∷ []) (worker ∷ worker ∷ []) (λ j. true) buffer one_region)
      (λ (sent, s).
        (map (λ x. x.0) sent ≡ 0 ∷ 1 ∷ [])
        × All (λ x. Tells one_region x.1) sent
        × (drop s.served_connections (worker ∷ worker ∷ []) ≡ []))
start_and_connect_example =
    start_and_connect_lem 2 (1 ∷ 2 ∷ []) (worker ∷ worker ∷ []) (λ j. true) buffer one_region
      one_region-IsValid (omega arith) refl (refl, (refl, tt)) (λ j. refl) two_seen

-- A machine with 8 CPUs on 2 sockets.
pinned_once_example :
    count 0
      (pin_all
        (λ a. true)
        (to_core ∷ any ∷ round_robin ∷ to_ht ∷ [])
        (record { manager = new_core_manager 8 2 0; given = [] })).given
    ≤ 1
pinned_once_example =
    pinned_once 8 2 0 (λ a. true) (to_core ∷ any ∷ round_robin ∷ to_ht ∷ []) 0 (omega arith)

parallel_range_example :
    (blocks : List (ℕ × ℕ)) × (parallel_range 3 10 ≡ some blocks)
    × (all_indices blocks ≡ indices 0 10)
parallel_range_example = parallel_range_lem 3 10 (omega arith) (omega arith)
