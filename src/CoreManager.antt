-- ===== src/CoreManager.antt =====
-- `CoreManager` of backend/nam/threads/CoreManager.hpp, which pins threads to the cores and the
-- hyper-threads of one socket. `pthread_setaffinity_np` is a parameter: whether it succeeds for a CPU.
pub mod Pinning
use rdma_synchronization.Common.{
  ℕ, zero, suc, ◌+◌, ◌*◌, ◌/◌, ◌%◌, ◌^◌, Bool, true, false, Option, none, some, List, [], ◌∷◌, ◌++◌,
  ◌==◌, leb, ◌&&◌, if◌then◌else◌, length,
}

pub record CoreManager : Type 0 where
  pub cores : List ℕ
  pub hts : List ℕ

-- `std::iota` over `count` elements
abbrev pub iota : ℕ → ℕ → List ℕ
iota first zero = []
iota first (suc count) = first ∷ iota (first + 1) count

-- The constructor, by `hardware_concurrency` and the flags `sockets` and `socket`.
unfoldable pub new_core_manager : ℕ → ℕ → ℕ → CoreManager
new_core_manager count sockets socket =
    let socket_count = count / sockets in
    let p_cores = socket_count / 2 in
    let first_cpu_id = p_cores * socket in
    let first_ht_id = p_cores * (sockets + socket) in
    record { cores = iota first_cpu_id p_cores; hts = iota first_ht_id p_cores }

-- The CPU that the thread is pinned to, or an exception, before which the CPU may be gone already.
pub data Pinned : Type 0 where
  pinned : ℕ → CoreManager → Pinned
  throws : CoreManager → Pinned

-- `schedAffinity`
unfoldable pub sched_affinity : (ℕ → Bool) → ℕ → CoreManager → Pinned
sched_affinity affinity id m = if affinity id then pinned id m else throws m

unfoldable pub pin_thread_to_core : (ℕ → Bool) → CoreManager → Pinned
unfolding sched_affinity
pin_thread_to_core affinity m = elim m.cores [
  | [] ↦ throws m
  | id ∷ rest ↦ sched_affinity affinity id (record m { cores = rest })
]

unfoldable pub pin_thread_to_ht : (ℕ → Bool) → CoreManager → Pinned
unfolding sched_affinity
pin_thread_to_ht affinity m = elim m.hts [
  | [] ↦ throws m
  | id ∷ rest ↦ sched_affinity affinity id (record m { hts = rest })
]

unfoldable pub pin_thread : (ℕ → Bool) → CoreManager → Pinned
unfolding pin_thread_to_core pin_thread_to_ht
pin_thread affinity m =
    if leb 1 (length m.cores)
    then pin_thread_to_core affinity m
    else if leb 1 (length m.hts)
    then pin_thread_to_ht affinity m
    else throws m

unfoldable pub pin_thread_round_robin : (ℕ → Bool) → CoreManager → Pinned
unfolding pin_thread_to_core pin_thread_to_ht
pin_thread_round_robin affinity m =
    if (length m.cores == 0) && (length m.hts == 0)
    then throws m
    else if leb (length m.hts) (length m.cores)
    then pin_thread_to_core affinity m
    else pin_thread_to_ht affinity m
