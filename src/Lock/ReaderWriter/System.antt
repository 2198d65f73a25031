-- ===== src/Lock/ReaderWriter/System.antt =====
-- Many clients at one reader-writer lock: the requests that they send to the lock word, one after the
-- other in any order, as functions on the word and on what each client has gone on to do.
use rdma_synchronization.Common.{
  ℕ, ◌<◌, ◌≡◌, List, ◌==◌, leb, if◌then◌else◌, get_or, set, replicate,
}
use rdma_synchronization.Common.Word.{add_u64}
use rdma_synchronization.Lock.Config.{
  exclusive_locked, exclusive_unlock_to_be_added, unlocked, minus_one,
}

-- A client is outside, or holds the lock to write, or to read, or has added to the word, seen the lock
-- taken, and is about to subtract again.
pub data Phase : Type 0 where
  idle writing reading aborting : Phase

pub data Request : Type 0 where
  x_lock x_unlock s_lock s_unlock : Request

pub record System : Type 0 where
  pub word : ℕ
  pub phases : List Phase

-- The word after each request.
unfoldable pub next_word : Request → ℕ → ℕ
next_word x_lock w = if w == unlocked then exclusive_locked else w
next_word x_unlock w = add_u64 w exclusive_unlock_to_be_added
next_word s_lock w = add_u64 w 1
next_word s_unlock w = add_u64 w minus_one

-- What the client goes on to do, by the word that the request fetched.
unfoldable pub next_phase : Request → ℕ → Phase
next_phase x_lock w = if w == unlocked then writing else idle
next_phase x_unlock w = idle
next_phase s_lock w = if leb exclusive_locked w then aborting else reading
next_phase s_unlock w = idle

-- The requests that the source sends in each phase.
pub data Sends : Phase → Request → Type 0 where
  idle_x : Sends idle x_lock
  idle_s : Sends idle s_lock
  writing_x : Sends writing x_unlock
  reading_s : Sends reading s_unlock
  aborting_s : Sends aborting s_unlock

unfoldable pub request : System → ℕ → Request → System
unfolding next_word next_phase
request s i r = record { word = next_word r s.word; phases = set s.phases i (next_phase r s.word) }

-- The states that `n` clients reach from a word that holds `UNLOCKED`.
pub data Reach (n : ℕ) : System → Type 0 where
  start : (s : System) → s.word ≡ unlocked → s.phases ≡ replicate n idle → Reach n s
  step :
      (s : System) (i : ℕ) (r : Request)
      → Reach n s
      → i < n
      → Sends (get_or s.phases i idle) r
      → Reach n (request s i r)
