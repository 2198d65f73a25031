-- ===== src/Benchmark.antt =====
-- What the workers of frontend/optmistic_benchmark.cpp do with one tuple: `run_test` for the optimistic
-- lock, `run_pessimistic` for the reader-writer lock, and `run_check`. The numbers that
-- `getRandU64` draws are arguments; measuring times is left out.
pub mod Words
pub mod Attempts
pub mod Traversal
pub mod Pacing
use rdma_synchronization.Common.{
  ℕ, zero, suc, ◌+◌, ◌-◌, ◌*◌, ◌/◌, Bool, true, false, ◌==◌, ltb, ◌&&◌, ◌||◌, if◌then◌else◌,
}
use rdma_synchronization.Common.Word.{add_u64}
use rdma_synchronization.Rdma.Memory.{Memory, store}
use rdma_synchronization.Rdma.Client.{
  Nic, Client, M, Result, ok, restart, fails, waits, pure, follow, ◌>>=◌, ◌>>◌, modify,
}
use rdma_synchronization.Lock.Config.{
  Config, Consistency, farm, crc, v2, broken, rc, LockType, header, footer, line_words,
}
use rdma_synchronization.Lock.Exclusive
use rdma_synchronization.Lock.Exclusive.{ExclusiveLock}
use rdma_synchronization.Lock.Optimistic
use rdma_synchronization.Lock.Optimistic.{OptimisticLock}
use rdma_synchronization.Lock.ReaderWriter.{
  ReaderWriterLock, lock_exclusive, unlock_exclusive, lock_shared,
}

-- The counters of a worker that the functions get by reference.
pub record Counters : Type 0 where
  pub updates : ℕ
  pub reads : ℕ
  pub aborts : ℕ

-- `for (repeatCounter = 0;; repeatCounter++)` with the `try` in it: an attempt that ends with
-- `OLRestartException` is counted and made again. `waits` also stands for the end of the fuel.
unfoldable pub repeat : ℕ → M (Unit {0}) → Counters → M Counters
repeat zero attempt k c = waits
repeat (suc fuel) attempt k c = elim (attempt c) [
  | ok u c' ↦ ok k c'
  | restart c' ↦ repeat fuel attempt (record k { aborts = add_u64 k.aborts 1 }) c'
  | fails ↦ fails
  | waits ↦ waits
]

-- `tuple_buffer[index] += 5`
abbrev pub add_five : ℕ → ℕ → Memory → Memory
add_five tuple_buffer index m =
    store m (tuple_buffer + 8 * index) (add_u64 (m (tuple_buffer + 8 * index)) 5)

-- The word of a tuple that a writer changes, by the cache line and the place in it that are drawn.
unfoldable pub random_index : ℕ → ℕ → ℕ
random_index rnd_cl rnd_idx = rnd_cl * line_words + rnd_idx

abbrev pub is_farm : Consistency → Bool
is_farm farm = true
is_farm _ = false

abbrev pub is_broken : Consistency → Bool
is_broken broken = true
is_broken _ = false

abbrev pub is_rc : Consistency → Bool
is_rc rc = true
is_rc _ = false

-- The three tests after a read, of which the last alone has the `else`.
unfoldable pub count_reads : Consistency → ℕ → ℕ → ℕ
count_reads cons batch_size reads =
    let batch = ltb 1 batch_size in
    let reads1 = if batch && is_broken cons then add_u64 reads batch_size else reads in
    let reads2 = if batch && is_rc cons then add_u64 reads1 batch_size else reads1 in
    if batch && is_farm cons then add_u64 reads2 batch_size else add_u64 reads2 1

-- `READ_RATIO == 100 || getRandU64(0, 100) < READ_RATIO`
abbrev pub is_read : ℕ → ℕ → Bool
is_read read_ratio drawn = (read_ratio == 100) || ltb drawn read_ratio

-- `tuple_buffer[idx]++`
unfoldable pub increment_word : ℕ → ℕ → Memory → Memory
increment_word tuple_buffer idx m =
    store m (tuple_buffer + 8 * idx) (add_u64 (m (tuple_buffer + 8 * idx)) 1)

-- The words 3, 4 and 5 of a cache line.
unfoldable pub increment_line : ℕ → ℕ → Memory → Memory
increment_line tuple_buffer cl_i m =
    increment_word tuple_buffer (cl_i * 8 + 5)
      (increment_word tuple_buffer (cl_i * 8 + 4) (increment_word tuple_buffer (cl_i * 8 + 3) m))

-- `count` cache lines from line `cl_i` on.
unfoldable pub increment_lines : ℕ → ℕ → ℕ → Memory → Memory
increment_lines tuple_buffer zero cl_i m = m
increment_lines tuple_buffer (suc count) cl_i m =
    increment_lines tuple_buffer count (cl_i + 1) (increment_line tuple_buffer cl_i m)

-- Whether the loop of the reader prints nothing.
unfoldable pub all_equal : ℕ → ℕ → ℕ → ℕ → Memory → Bool
all_equal tuple_buffer prev zero cl_i m = true
all_equal tuple_buffer prev (suc count) cl_i m =
    let same = λ (v_i : ℕ). prev == m (tuple_buffer + 8 * (cl_i * 8 + v_i)) in
    same 3 && (same 4 && same 5) && all_equal tuple_buffer prev count (cl_i + 1) m

module _ (nic : Nic) (others : ℕ → Memory → Memory) (config : Config) (fuel : ℕ) where
  -- `tuple.lock(); tuple.unlock();` of a reader
  abbrev pub read_attempt : Consistency → LockType → OptimisticLock → M (Unit {0})
  read_attempt cons lt t = do
    prev_version ← Optimistic.lock nic others config cons lt t 0
    versions ← Optimistic.unlock nic others config cons lt t prev_version
    pure tt

  -- `tuple.lock(); tuple_buffer[index] += 5; tuple.unlock();`
  abbrev pub write_attempt : Consistency → LockType → ExclusiveLock → ℕ → M (Unit {0})
  write_attempt cons lt t index =
      Exclusive.lock nic others config lt t
      >> (modify (add_five t.tuple_buffer index) >> Exclusive.unlock nic others config cons lt t)

  pub run_test :
      Consistency
      → LockType
      → OptimisticLock
      → ExclusiveLock
      → ℕ
      → ℕ
      → ℕ
      → ℕ
      → Counters
      → M Counters
  run_test cons lt reader writer read_ratio drawn rnd_cl rnd_idx k =
      if is_read read_ratio drawn
      then (do
        k1 ← repeat fuel (read_attempt cons lt reader) k
        pure (record k1 { reads = count_reads cons config.batch_size k1.reads }))
      else (do
        k1 ← repeat fuel (write_attempt cons lt writer (random_index rnd_cl rnd_idx)) k
        pure (record k1 { updates = add_u64 k1.updates 1 }))

  -- `unlockShared` does nothing.
  unfoldable run_pessimistic :
      ReaderWriterLock → ReaderWriterLock → ℕ → ℕ → ℕ → ℕ → Counters → M Counters
  run_pessimistic reader writer read_ratio drawn rnd_cl rnd_idx k =
      let index = random_index rnd_cl rnd_idx in
      if is_read read_ratio drawn
      then (do
        k1 ← repeat fuel (lock_shared nic others config reader) k
        pure (record k1 { reads = add_u64 k1.reads config.batch_size }))
      else (do
        k1 ←
            repeat fuel
              (lock_exclusive nic others config writer
                >> (modify (add_five writer.tuple_buffer index)
                    >> unlock_exclusive nic others config writer))
              k
        pure (record k1 { updates = add_u64 k1.updates 1 }))

  -- The second component is whether the reader has found all words equal.
  unfoldable run_check :
      Consistency
      → LockType
      → OptimisticLock
      → ExclusiveLock
      → ℕ
      → ℕ
      → Counters
      → M (Counters × Bool)
  run_check cons lt reader writer read_ratio drawn k =
      if is_read read_ratio drawn
      then (do
        k1 ← repeat fuel (read_attempt cons lt reader) k
        (λ c.
            let m = c.world.local in
            let equal =
              all_equal reader.tuple_buffer (m (reader.tuple_buffer + 8 * 3)) (reader.bytes / 64) 0
                m in
            ok (record k1 { reads = add_u64 k1.reads 1 }, equal) c))
      else (do
        k1 ←
            repeat fuel
              (Exclusive.lock nic others config lt writer
                >> (modify (increment_lines writer.tuple_buffer (writer.bytes / 64) 0)
                    >> Exclusive.unlock nic others config cons lt writer))
              k
        pure (record k1 { updates = add_u64 k1.updates 1 }, true))
