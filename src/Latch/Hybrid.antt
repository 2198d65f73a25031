-- ===== src/Latch/Hybrid.antt =====
-- `HybridLatch` of backend/nam/syncprimitives/HybridLatch.hpp: a version word with a
-- std::shared_mutex. Where other threads can run inside an operation, `between` says what they do.
pub mod Laws
use rdma_synchronization.Common.{
  ℕ, ◌-◌, ◌+◌, Bool, true, false, not, ◌||◌, Option, none, some, ◌==◌, ltb, if◌then◌else◌,
}
use rdma_synchronization.Common.Word.{add_u64}
use rdma_synchronization.Latch.Bits.{is_latched}

-- The mutex: held by one writer, or by some readers.
pub record HybridLatch : Type 0 where
  pub version : ℕ
  pub writer : Bool
  pub readers : ℕ

abbrev pub fresh : HybridLatch
fresh = record { version = 0b100; writer = false; readers = 0 }

-- A call returns, waits for the mutex, or throws by `ensure`.
pub data Outcome (A : Type 0) : Type 0 where
  returns : A → Outcome A
  blocks : Outcome A
  throws : Outcome A

infixl 5 ◌>>=◌
abbrev pub ◌>>=◌ : {A B : Type 0} → Outcome A → (A → Outcome B) → Outcome B
returns a >>= f = f a
blocks >>= f = blocks
throws >>= f = throws

abbrev ensure : {A : Type 0} → Bool → A → Outcome A
ensure true a = returns a
ensure false a = throws

abbrev pub bump : HybridLatch → HybridLatch
bump l = record l { version = add_u64 l.version 2 }

abbrev pub free : HybridLatch → Bool
free l = not (l.writer || ltb 0 l.readers)

pub latch_shared : HybridLatch → Outcome HybridLatch
latch_shared l =
    if l.writer
    then blocks
    else ensure (not (is_latched l.version)) (record l { readers = l.readers + 1 })

pub unlatch_shared : HybridLatch → HybridLatch
unlatch_shared l = record l { readers = l.readers - 1 }

pub latch_exclusive : HybridLatch → Outcome HybridLatch
latch_exclusive l =
    if free l
    then ensure (is_latched (bump l).version) (record (bump l) { writer = true })
    else blocks

pub unlatch_exclusive : HybridLatch → Outcome HybridLatch
unlatch_exclusive l = do
  l1 ← ensure (is_latched l.version) (bump l)
  ensure (not (is_latched l1.version)) (record l1 { writer = false })

pub try_latch_exclusive : HybridLatch → Bool × HybridLatch
try_latch_exclusive l = if free l then (true, record (bump l) { writer = true }) else (false, l)

pub try_latch_shared : HybridLatch → Bool × HybridLatch
try_latch_shared l = if l.writer then (false, l) else (true, record l { readers = l.readers + 1 })

pub try_downgrade_exclusive_to_shared :
    (HybridLatch → HybridLatch) → HybridLatch → Outcome (Bool × HybridLatch)
unfolding unlatch_exclusive latch_shared unlatch_shared
try_downgrade_exclusive_to_shared between l = do
  l1 ← unlatch_exclusive l
  l2 ← latch_shared (between l1)
  returns (if l1.version == l2.version then (true, l2) else (false, unlatch_shared l2))

pub downgrade_exclusive_to_optimistic : HybridLatch → Outcome (ℕ × HybridLatch)
unfolding unlatch_exclusive
downgrade_exclusive_to_optimistic l = do l1 ← unlatch_exclusive l; returns (add_u64 l.version 2, l1)

pub downgrade_shared_to_optimistic : HybridLatch → ℕ × HybridLatch
unfolding unlatch_shared
downgrade_shared_to_optimistic l = (l.version, unlatch_shared l)

pub optimistic_upgrade_to_shared :
    (HybridLatch → HybridLatch) → ℕ → HybridLatch → Bool × HybridLatch
unfolding try_latch_shared unlatch_shared
optimistic_upgrade_to_shared between start_read l =
    if is_latched l.version
    then (false, l)
    else if not (l.version == start_read)
    then (false, l)
    else (let (locked, l1) = try_latch_shared (between l) in
        if not locked
        then (false, l1)
        else if l1.version == start_read
        then (true, l1)
        else (false, unlatch_shared l1))

pub optimistic_upgrade_to_exclusive :
    (HybridLatch → HybridLatch) → ℕ → HybridLatch → Outcome (Bool × HybridLatch)
unfolding try_latch_exclusive unlatch_exclusive
optimistic_upgrade_to_exclusive between start_read l =
    if not (l.version == start_read)
    then returns (false, l)
    else (let (success, l1) = try_latch_exclusive (between l) in
        if not success
        then returns (false, l1)
        else if add_u64 start_read 2 == l1.version
        then ensure (is_latched l1.version) (true, l1)
        else (do
          l2 ← ensure (is_latched l1.version) l1
          l3 ← unlatch_exclusive l2
          returns (false, l3)))

pub optimistic_latch_or_restart : HybridLatch → Option ℕ
optimistic_latch_or_restart l = if is_latched l.version then none else some l.version

pub optimistic_read_unlatch_or_restart : ℕ → HybridLatch → Bool
optimistic_read_unlatch_or_restart start_read l = start_read == l.version
