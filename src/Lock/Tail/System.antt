-- ===== src/Lock/Tail/System.antt =====
-- Many clients at one lock of frontend/locking_benchmark_tail.cpp: the requests that they send to the
-- lock word, one after the other in any order.
use rdma_synchronization.Common.{
  ℕ, ◌+◌, ◌<◌, ◌≡◌, List, ◌==◌, if◌then◌else◌, get_or, set, replicate, bit_and,
}
use rdma_synchronization.Common.Word.{add_u64}
use rdma_synchronization.Lock.Config.{unlocked}
use rdma_synchronization.Lock.Tail.{minus_two}

pub data Phase : Type 0 where
  idle writing reading : Phase

pub data Request : Type 0 where
  x_lock x_unlock s_lock s_unlock s_order_release : Request

-- The word, what the clients do, and how often `s_order_release` was sent, which no code reads.
pub record System : Type 0 where
  pub word : ℕ
  pub phases : List Phase
  pub order_releases : ℕ

-- The last word of a tuple that is written back.
abbrev pub written_back : ℕ
written_back = 0

-- The word after each request. That of `s_order_release` goes to another address.
unfoldable pub next_word : Request → ℕ → ℕ
next_word x_lock w = if w == unlocked then 1 else w
next_word x_unlock w = written_back
next_word s_lock w = add_u64 w 2
next_word s_unlock w = add_u64 w minus_two
next_word s_order_release w = w

-- What the client goes on to do, by the word that the request fetched.
unfoldable pub next_phase : Request → ℕ → Phase
next_phase x_lock w = if w == unlocked then writing else idle
next_phase x_unlock w = idle
next_phase s_lock w = if bit_and w 1 == 1 then idle else reading
next_phase s_unlock w = idle
next_phase s_order_release w = idle

abbrev pub misses : Request → ℕ
misses s_order_release = 1
misses _ = 0

-- The requests that the source sends in each phase; which of the last two depends on
-- FLAGS_order_release.
pub data Sends : Phase → Request → Type 0 where
  idle_x : Sends idle x_lock
  idle_s : Sends idle s_lock
  writing_x : Sends writing x_unlock
  reading_s : Sends reading s_unlock
  reading_order : Sends reading s_order_release

unfoldable pub request : System → ℕ → Request → System
unfolding next_word next_phase
request s i r = record {
  word = next_word r s.word;
  phases = set s.phases i (next_phase r s.word);
  order_releases = s.order_releases + misses r;
}

-- The states that `n` clients reach from a word that holds `UNLOCKED`.
pub data Reach (n : ℕ) : System → Type 0 where
  start :
      (s : System)
      → s.word ≡ unlocked
      → s.phases ≡ replicate n idle
      → s.order_releases ≡ 0
      → Reach n s
  step :
      (s : System) (i : ℕ) (r : Request)
      → Reach n s
      → i < n
      → Sends (get_or s.phases i idle) r
      → Reach n (request s i r)
