-- ===== src/Latch/System.antt =====
-- Threads that share one `OptimisticLatch`, interleaved in any order.
pub mod Inv
pub mod Safety
use rdma_synchronization.Common.{ℕ, ◌+◌, ◌%◌, ◌<◌, ◌≡◌, true, false, Option, none, some, update}
use rdma_synchronization.Latch.Optimistic.{
  fresh_word, optimistic_latch_or_restart, upgrade_to_exclusive_latch, unlatch_exclusive,
  check_or_restart, write_unlock_obsolete,
}

-- The word, with two numbers that no code reads: the word without its wrap-around, and how often
-- the protected data has been written.
pub record Memory : Type 0 where
  pub word : ℕ
  pub epoch : ℕ
  pub writes : ℕ

-- Where a thread stands. A reader keeps the version that it started from and, unread by the code,
-- the epoch and the number of writes at that moment.
pub data Pc : Type 0 where
  idle : Pc
  loaded : (version : ℕ) → Pc
  owner : Pc
  storing : (word : ℕ) → Pc
  reader : (version epoch writes : ℕ) → Pc

abbrev pub after_load : Option ℕ → Pc
after_load none = idle
after_load (some version) = loaded version

abbrev pub start_read : Memory → Option ℕ → Pc
start_read m none = idle
start_read m (some version) = reader version m.epoch m.writes

-- One atomic access of one thread: the two of `tryLatchExclusive`, a write of the protected data,
-- the two of `unlatchExclusive`, `writeUnlockObsolete` (on data not yet obsolete), and the start
-- and the check of an optimistic read.
pub data Move (m : Memory) : Pc → Memory → Pc → Type 0 where
  load : Move m idle m (after_load (optimistic_latch_or_restart m.word))
  cas_win :
      {v v' w : ℕ}
      → upgrade_to_exclusive_latch v m.word ≡ (true, v', w)
      → Move m (loaded v) (record m { word = w; epoch = m.epoch + 2 }) owner
  cas_lose :
      {v v' w : ℕ}
      → upgrade_to_exclusive_latch v m.word ≡ (false, v', w)
      → Move m (loaded v) (record m { word = w }) idle
  write : Move m owner (record m { writes = m.writes + 1 }) owner
  unlatch_load : {w : ℕ} → unlatch_exclusive m.word ≡ some w → Move m owner m (storing w)
  unlatch_store : {w : ℕ} → Move m (storing w) (record m { word = w; epoch = m.epoch + 2 }) idle
  obsolete :
      m.word % 2 ≡ 0
      → Move m owner (record m { word = write_unlock_obsolete m.word; epoch = m.epoch + 3 }) idle
  read : Move m idle m (start_read m (optimistic_latch_or_restart m.word))
  check_pass : {v e w : ℕ} → check_or_restart v m.word ≡ true → Move m (reader v e w) m idle
  check_restart : {v e w : ℕ} → check_or_restart v m.word ≡ false → Move m (reader v e w) m idle

pub record System : Type 0 where
  pub mem : Memory
  pub pc : ℕ → Pc

abbrev pub init : System
init = record { mem = record { word = fresh_word; epoch = fresh_word; writes = 0 }; pc = λ _. idle }

-- The states that `threads` threads reach from the fresh latch, one access at a time.
pub data Reach (threads : ℕ) : System → Type 0 where
  initially : Reach threads init
  then_move :
      {before : System} {after : Memory} {next : Pc} (thread : ℕ)
      → thread < threads
      → Reach threads before
      → Move before.mem (before.pc thread) after next
      → Reach threads (record { pc = update before.pc thread next; mem = after })
