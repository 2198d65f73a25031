-- ===== src/CoreManager/Pinning.antt =====
-- No CPU is given to two threads, and every CPU is given out.
use rdma_synchronization.Common.{
  count, ℕ, zero, suc, ◌+◌, ◌*◌, ◌/◌, ◌<◌, ◌≤◌, ◌≡◌, Bool, List, [], ◌∷◌, ◌==◌, leb, ltb, ◌&&◌,
  if◌then◌else◌, arith, length, Bool-cases, inl, inr,
}
use native.Mathlib.Nat.{mul-add, mul-le-mul_left}
use rdma_synchronization.CoreManager.{
  CoreManager, iota, new_core_manager, Pinned, pinned, throws, sched_affinity, pin_thread_to_core,
  pin_thread_to_ht, pin_thread, pin_thread_round_robin,
}

-- A request to pin a thread, by one of the four functions.
pub data Request : Type 0 where
  to_core to_ht any round_robin : Request

unfoldable pub pin : Request → (ℕ → Bool) → CoreManager → Pinned
pin to_core = pin_thread_to_core
pin to_ht = pin_thread_to_ht
pin any = pin_thread
pin round_robin = pin_thread_round_robin

-- The CPUs that a sequence of requests gets, the last one first; one that throws gets none.
pub record Given : Type 0 where
  pub manager : CoreManager
  pub given : List ℕ

abbrev pub give : Pinned → List ℕ → Given
give (pinned id m) given = record { manager = m; given = id ∷ given }
give (throws m) given = record { manager = m; given = given }

unfoldable pub pin_all : (ℕ → Bool) → List Request → Given → Given
pin_all affinity [] g = g
pin_all affinity (r ∷ rs) g = pin_all affinity rs (give (pin r affinity g.manager) g.given)

-- How often a CPU is free or has been given.
abbrev pub times : ℕ → Given → ℕ
times a g = count a g.given + (count a g.manager.cores + count a g.manager.hts)

module _ (affinity : ℕ → Bool) (a : ℕ) where
  -- A request gives a CPU that was free, or none.
  abbrev Keeps : Pinned → CoreManager → List ℕ → Type 0
  Keeps p m l = times a (give p l) ≤ times a (record { manager = m; given = l })

  core_lem :
      (cores hts l : List ℕ)
      → let m : CoreManager = record { cores = cores; hts = hts } in
        Keeps (pin_thread_to_core affinity m) m l
  unfolding pin_thread_to_core sched_affinity
  core_lem [] hts l = omega arith
  core_lem (id ∷ cores) hts l = elim (Bool-cases (affinity id)) [
    | inl h ↦ rw h (omega arith)
    | inr h ↦ rw h (omega arith)
  ]

  ht_lem :
      (cores hts l : List ℕ)
      → let m : CoreManager = record { cores = cores; hts = hts } in
        Keeps (pin_thread_to_ht affinity m) m l
  unfolding pin_thread_to_ht sched_affinity
  ht_lem cores [] l = omega arith
  ht_lem cores (id ∷ hts) l = elim (Bool-cases (affinity id)) [
    | inl h ↦ rw h (omega arith)
    | inr h ↦ rw h (omega arith)
  ]

  pin-Keeps : (r : Request) (m : CoreManager) (l : List ℕ) → Keeps (pin r affinity m) m l
  unfolding pin pin_thread pin_thread_round_robin
  pin-Keeps to_core m l = core_lem m.cores m.hts l
  pin-Keeps to_ht m l = ht_lem m.cores m.hts l
  pin-Keeps any m l = elim (Bool-cases (leb 1 (length m.cores))) [
    | inl h ↦ rw h (core_lem m.cores m.hts l)
    | inr h ↦ elim (Bool-cases (leb 1 (length m.hts))) [
      | inl k ↦ rw (h, k) (ht_lem m.cores m.hts l)
      | inr k ↦ rw (h, k) (omega arith)
    ]
  ]
  pin-Keeps round_robin m l = elim (Bool-cases ((length m.cores == 0) && (length m.hts == 0))) [
    | inl h ↦ rw h (omega arith)
    | inr h ↦ elim (Bool-cases (leb (length m.hts) (length m.cores))) [
      | inl k ↦ rw (h, k) (core_lem m.cores m.hts l)
      | inr k ↦ rw (h, k) (ht_lem m.cores m.hts l)
    ]
  ]

  pin_all-le : (rs : List Request) (g : Given) → times a (pin_all affinity rs g) ≤ times a g
  unfolding pin_all
  pin_all-le [] g = omega arith
  pin_all-le (r ∷ rs) g = omega (
    arith,
    pin_all-le rs (give (pin r affinity g.manager) g.given),
    pin-Keeps r g.manager g.given,
  )

count-iota : (n b a : ℕ) → count a (iota b n) ≡ (if leb b a && ltb a (b + n) then 1 else 0)
count-iota zero b a = ground arith
count-iota (suc n) b a = ground (arith, count-iota n (b + 1) a)

-- However threads are pinned, and whether or not the calls succeed, the manager of a machine with
-- at least one socket gives no CPU to two threads.
pub pinned_once :
    (machine sockets socket : ℕ) (affinity : ℕ → Bool) (rs : List Request) (a : ℕ)
    → 0 < sockets
    → count a
        (pin_all affinity rs
          (record { manager = new_core_manager machine sockets socket; given = [] })).given
      ≤ 1
unfolding new_core_manager
pinned_once machine sockets socket affinity rs a pos =
    let p = machine / sockets / 2 in
    let apart : p * socket + p ≤ p * (sockets + socket) =
      omega
        (arith, mul-add p sockets socket, mul-le-mul_left {m = 1} {n = sockets} p (omega arith)) in
    ground (
      arith,
      pin_all-le affinity a rs
          (record { manager = new_core_manager machine sockets socket; given = [] }),
      count-iota p (p * socket) a,
      count-iota p (p * (sockets + socket)) a,
      apart,
    )
