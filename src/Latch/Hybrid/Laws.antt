-- ===== src/Latch/Hybrid/Laws.antt =====
-- The version of a `HybridLatch` is latched exactly while a writer holds the mutex, and upgrades
-- and downgrades notice every writer that came between.
use rdma_synchronization.Common.{
  ℕ, ◌+◌, ◌/◌, ◌%◌, ◌^◌, ◌<◌, ◌≡◌, true, false, ◌==◌, if◌then◌else◌, arith, not, ◌&&◌,
}
use rdma_synchronization.Latch.Bits.{is_latched, is_latched-bit}
use rdma_synchronization.Latch.Hybrid.{
  HybridLatch, Outcome, returns, blocks, throws, ◌>>=◌, bump, free, latch_shared, latch_exclusive,
  unlatch_exclusive, try_downgrade_exclusive_to_shared, optimistic_upgrade_to_shared,
  optimistic_upgrade_to_exclusive,
}

pub record IsValid (l : HybridLatch) : Type 0 where
  pub fits : l.version < 2 ^ 64
  pub writing : l.writer ≡ true → (l.version / 2 % 2 ≡ 1) × (l.readers ≡ 0)
  pub resting : l.writer ≡ false → l.version / 2 % 2 ≡ 0

-- The call returns, with a result of which `P` holds; it neither waits nor throws.
abbrev pub Ends : {A : Type 0} → Outcome A → (A → Type 0) → Type 0
Ends (returns a) P = P a
Ends blocks P = ⊥
Ends throws P = ⊥

-- On a free latch `latchExclusive` returns with the latch held by a writer, and never throws.
latch_exclusive-IsValid :
    (l : HybridLatch)
    → IsValid l
    → free l ≡ true
    → Ends
        (latch_exclusive l)
        (λ l'. IsValid l' × (l'.writer ≡ true) × (l'.version ≡ (l.version + 2) % 2 ^ 64))
unfolding latch_exclusive
latch_exclusive-IsValid l v f = ground (arith, is_latched-bit (bump l).version)

-- `unlatchExclusive` by the writer never throws, and leaves the latch free with a new version.
unlatch_exclusive-IsValid :
    (l : HybridLatch)
    → IsValid l
    → l.writer ≡ true
    → Ends
        (unlatch_exclusive l)
        (λ l'. IsValid l' × (free l' ≡ true) × (l'.version ≡ (l.version + 2) % 2 ^ 64))
unfolding unlatch_exclusive
unlatch_exclusive-IsValid l v w =
    ground (arith, is_latched-bit l.version, is_latched-bit (bump l).version)

latch_shared-IsValid :
    (l : HybridLatch)
    → IsValid l
    → l.writer ≡ false
    → Ends
        (latch_shared l)
        (λ l'. IsValid l' × (l'.readers ≡ l.readers + 1) × (l'.version ≡ l.version))
unfolding latch_shared
latch_shared-IsValid l v w = ground (arith, is_latched-bit l.version)

-- A writer that latches and releases a free latch leaves it as it was, but for a version that has
-- moved on by 4.
latch_unlatch :
    (l : HybridLatch)
    → IsValid l
    → free l ≡ true
    → (latch_exclusive l >>= unlatch_exclusive)
      ≡ returns (record l { version = (l.version + 4) % 2 ^ 64 })
unfolding latch_exclusive unlatch_exclusive
latch_unlatch l v f =
    ground (arith, is_latched-bit (bump l).version, is_latched-bit (bump (bump l)).version)

-- What a writer gets that gives its latch up for a shared one, where other threads may run between:
-- the shared latch, if no writer came between, and otherwise nothing.
try_downgrade_lem :
    (between : HybridLatch → HybridLatch) (l : HybridLatch)
    → IsValid l
    → l.writer ≡ true
    → IsValid (between (record (bump l) { writer = false }))
    → (between (record (bump l) { writer = false })).writer ≡ false
    → let after = between (record (bump l) { writer = false }) in
      try_downgrade_exclusive_to_shared between l
      ≡ returns (
          if (l.version + 2) % 2 ^ 64 == after.version
          then (true, record after { readers = after.readers + 1 })
          else (false, after))
unfolding try_downgrade_exclusive_to_shared
try_downgrade_lem between l v w good gone = ground (
  arith,
  is_latched-bit l.version,
  is_latched-bit (bump l).version,
  is_latched-bit (between (record (bump l) { writer = false })).version,
)

-- An upgrade to an exclusive latch succeeds exactly where the latch is free when it is tried and the
-- version is still that of the start of the read. Where it fails, other threads see at most a
-- version that has moved on; it never throws.
pub upgrade_exclusive_lem :
    (between : HybridLatch → HybridLatch) (start_read : ℕ) (l : HybridLatch)
    → l.version ≡ start_read
    → IsValid l
    → IsValid (between l)
    → let b = between l in
      optimistic_upgrade_to_exclusive between start_read l
      ≡ returns (
          if free b
          then (if b.version == start_read
              then (true, record (bump b) { writer = true })
              else (false, record b { version = (b.version + 4) % 2 ^ 64 }))
          else (false, b))
unfolding optimistic_upgrade_to_exclusive
upgrade_exclusive_lem between start_read l e u v = ground (
  arith,
  is_latched-bit (bump (between l)).version,
  is_latched-bit (bump (bump (between l))).version,
)

-- An upgrade to a shared latch succeeds exactly where the version is that of the start of the read,
-- is not latched, and is the same after other threads have run, with no writer among them; where
-- it fails it holds nothing.
upgrade_shared_lem :
    (between : HybridLatch → HybridLatch) (start_read : ℕ) (l : HybridLatch)
    → IsValid (between l)
    → let b = between l in
      optimistic_upgrade_to_shared between start_read l ≡ (
        if not (is_latched l.version) && (l.version == start_read)
        then (if not b.writer && (b.version == start_read)
            then (true, record b { readers = b.readers + 1 })
            else (false, b))
        else (false, l))
unfolding optimistic_upgrade_to_shared
upgrade_shared_lem between start_read l v = ground arith
