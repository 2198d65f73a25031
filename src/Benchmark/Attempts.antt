-- ===== src/Benchmark/Attempts.antt =====
-- The rounds of the workers of frontend/optmistic_benchmark.cpp: attempts, and what is counted.
use rdma_synchronization.Common.{
  ℕ, zero, suc, ◌+◌, ◌*◌, ◌/◌, ◌^◌, ◌<◌, ◌≤◌, ◌≡◌, ap, ◌∙◌, Bool, ltb, if◌then◌else◌, arith,
  Bool-cases, inl, inr, some, eq→==, ◌⊎◌, List, ◌∷◌,
}
use rdma_synchronization.Common.Word.{add_u64}
use rdma_synchronization.Rdma.Memory.{Memory}
use rdma_synchronization.Rdma.Client.{IsVerbs, Poll, then_ok, Nic, Client, M, ok, restart}
use rdma_synchronization.Lock.Config.{
  Config, Consistency, farm, crc, v2, broken, rc, LockType, footer, w_unlocked,
}
use rdma_synchronization.Lock.Exclusive
use rdma_synchronization.Lock.Exclusive.{ExclusiveLock, lock_word, version_word, get_lock_position}
use rdma_synchronization.Lock.Exclusive.Update.{after_lock, lock_lem, footer_unlock_lem}
use rdma_synchronization.Lock.Optimistic.{OptimisticLock}
use mathlib.Core.Path.{subst}
use rdma_synchronization.Benchmark.{
  Counters, repeat, random_index, count_reads, is_read, read_attempt, write_attempt, run_test,
}

-- `n` attempts restart, and the next one returns.
pub data Ends (attempt : M (Unit {0})) : ℕ → Client → Client → Type 0 where
  returns : {c c' : Client} → attempt c ≡ ok tt c' → Ends attempt 0 c c'
  restarts :
      {n : ℕ} {c c1 c' : Client}
      → attempt c ≡ restart c1
      → Ends attempt n c1 c'
      → Ends attempt (suc n) c c'

repeat_lem :
    (attempt : M (Unit {0})) (fuel n : ℕ) (k : Counters) (c c' : Client)
    → Ends attempt n c c'
    → n < fuel
    → k.aborts + n < 2 ^ 64
    → repeat fuel attempt k c ≡ ok (record k { aborts = k.aborts + n }) c'
unfolding repeat
repeat_lem attempt zero n k c c' e lt small = absurd (omega arith)
repeat_lem attempt (suc fuel) zero k c c' (returns e) lt small =
    rw (repeat, e) (ap (λ t. ok (record k { aborts = t }) c') (omega arith))
repeat_lem attempt (suc fuel) (suc n) k c c' (restarts e more) lt small =
    rw (repeat, e)
      (repeat_lem attempt fuel n (record k { aborts = add_u64 k.aborts 1 }) _ c' more (omega arith)
          (omega arith)
        ∙ ap (λ t. ok (record k { aborts = t }) c') (omega arith))

-- What a round of reads adds to `reads`: with batches, `FaRM` counts a batch, and `Broken` and `RC` a
-- batch and one more.
unfoldable pub counted : Consistency → ℕ → ℕ
counted farm batch = if ltb 1 batch then batch else 1
counted broken batch = if ltb 1 batch then batch + 1 else 1
counted rc batch = if ltb 1 batch then batch + 1 else 1
counted crc batch = 1
counted v2 batch = 1

count_reads_lem :
    (cons : Consistency) (batch reads : ℕ)
    → reads + batch + 1 < 2 ^ 64
    → count_reads cons batch reads ≡ reads + counted cons batch
unfolding count_reads counted
count_reads_lem farm batch reads small = ground arith
count_reads_lem broken batch reads small = ground arith
count_reads_lem rc batch reads small = ground arith
count_reads_lem crc batch reads small = ground arith
count_reads_lem v2 batch reads small = ground arith

module _ (nic : Nic) (others : ℕ → Memory → Memory) (config : Config) (fuel : ℕ) where
  -- An attempt to write a tuple with its lock in the footer returns if the lock word is free when its
  -- compare-and-swap runs.
  pub write_attempt_returns :
      (verbs : IsVerbs nic) (cons : Consistency) (t : ExclusiveLock) (index : ℕ) (c : Client)
      (status : Bool) (more : List Bool) (rest : List Poll)
      → c.polls ≡ some (status ∷ more) ∷ rest
      → (t.lock_buffer < t.tuple_buffer) ⊎ (t.tuple_buffer + 8 * (t.bytes / 8) ≤ t.lock_buffer)
      → others c.now c.world.remote (get_lock_position footer t) ≡ w_unlocked
      → (c' : Client) × (write_attempt nic others config fuel cons footer t index c ≡ ok tt c')
  write_attempt_returns verbs cons t index c status more rest polls apart free =
      let got = after_lock nic verbs others config (get_lock_position footer t) t c rest in
      let locked : Exclusive.lock nic others config footer t c ≡ ok tt got =
        lock_lem nic verbs others config footer t c status more rest polls apart
        ∙ ap (λ b. if b then ok tt got else restart got) (eq→== _ _ free) in
      (
        _,
        then_ok (Exclusive.lock nic others config footer t) _ locked
            ∙ footer_unlock_lem nic verbs others config cons t _,
      )

  -- `run_test` returns where one of its attempts does, having made again and counted as an abort each
  -- attempt before it that restarts. By the ratio it reads, and counts the reads of its batch and, for
  -- `Broken` and `RC` with batches, one more; or it writes, and counts one update.
  pub run_test_lem :
      (cons : Consistency) (lt : LockType) (reader : OptimisticLock) (writer : ExclusiveLock)
      (read_ratio drawn rnd_cl rnd_idx n : ℕ) (k : Counters) (c c' : Client)
      → Ends
          (if is_read read_ratio drawn
            then read_attempt nic others config fuel cons lt reader
            else write_attempt nic others config fuel cons lt writer (random_index rnd_cl rnd_idx))
          n
          c
          c'
      → n < fuel
      → k.aborts + n < 2 ^ 64
      → k.reads + config.batch_size + 1 < 2 ^ 64
      → k.updates + 1 < 2 ^ 64
      → run_test nic others config fuel cons lt reader writer read_ratio drawn rnd_cl rnd_idx k c
        ≡ ok
            (if is_read read_ratio drawn
              then record k {
                aborts = k.aborts + n;
                reads = k.reads + counted cons config.batch_size;
              }
              else record k { aborts = k.aborts + n; updates = k.updates + 1 })
            c'
  unfolding run_test
  run_test_lem cons lt reader writer read_ratio drawn rnd_cl rnd_idx n k c c' ends lt_fuel small
        small_reads small_updates =
      let reading = read_attempt nic others config fuel cons lt reader in
      let writing =
        write_attempt nic others config fuel cons lt writer (random_index rnd_cl rnd_idx) in
      elim (Bool-cases (is_read read_ratio drawn)) [
        | inl h ↦
            let e = subst (λ b. Ends (if b then reading else writing) n c c') h ends in
            rw (h, repeat_lem reading fuel n k c c' e lt_fuel small)
              (ap (λ r. ok (record k { aborts = k.aborts + n; reads = r }) c')
                (count_reads_lem cons config.batch_size k.reads small_reads))
        | inr h ↦
            let e = subst (λ b. Ends (if b then reading else writing) n c c') h ends in
            rw (h, repeat_lem writing fuel n k c c' e lt_fuel small)
              (ap (λ u. ok (record k { aborts = k.aborts + n; updates = u }) c') (omega arith))
      ]
