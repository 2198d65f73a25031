-- ===== src/Concurrency.antt =====
-- `Barrier` of backend/nam/threads/Concurrency.hpp, and threads that wait at it, interleaved at its
-- atomic accesses.
pub mod Inv
pub mod Safety
use rdma_synchronization.Common.{
  ℕ, ◌+◌, ◌%◌, ◌^◌, Bool, true, false, Option, none, some, List, [], ◌∷◌, ◌==◌, ltb, if◌then◌else◌,
  length, get_or, set, replicate,
}
use rdma_synchronization.Common.Word.{sub_u64}

pub record Barrier : Type 0 where
  pub thread_count : ℕ
  pub cntr : ℕ
  pub round : ℕ

unfoldable pub new_barrier : ℕ → Barrier
new_barrier n = record { thread_count = n; cntr = n; round = 0 }

-- Where a thread stands in `wait`: outside, with what its last call returned; with the round loaded;
-- in the loop of the threads that are not the last; and, the last to come, before it sets `cntr`,
-- before it calls the finalizer, and before it counts the round.
pub data Pc : Type 0 where
  outside : (result : Option Bool) → Pc
  loaded : (prev_round : ℕ) → Pc
  spinning : (prev_round : ℕ) → Pc
  last : Pc
  refilled : Pc
  finalized : (r : Bool) → Pc

-- The next atomic access of a thread, or its call of the finalizer, which returns `finalizer`.
unfoldable pub wait : Bool → Barrier → Pc → Barrier × Pc
wait finalizer b (outside result) = (b, loaded b.round)
wait finalizer b (loaded prev_round) =
    (record b { cntr = sub_u64 b.cntr 1 }, if b.cntr == 1 then last else spinning prev_round)
wait finalizer b last = (record b { cntr = b.thread_count }, refilled)
wait finalizer b refilled = (b, finalized finalizer)
wait finalizer b (finalized r) = (record b { round = (b.round + 1) % 2 ^ 8 }, outside (some r))
wait finalizer b (spinning prev_round) =
    (b, if b.round == prev_round then spinning prev_round else outside (some false))

-- A thread, with how many of its calls have returned, which no code reads.
abbrev pub Thread : Type 0
Thread = Pc × ℕ

-- The barrier and its threads, with the number of rounds so far without its wrap-around.
pub record System : Type 0 where
  pub barrier : Barrier
  pub rounds : ℕ
  pub threads : List Thread

abbrev pub fresh : Thread
fresh = (outside none, 0)

abbrev pub init : ℕ → System
unfolding new_barrier
init n = record { barrier = new_barrier n; rounds = 0; threads = replicate n fresh }

-- A call returns where the thread comes out, and the finalizer's caller counts the round.
abbrev pub passed_after : Pc → Pc → ℕ → ℕ
passed_after (spinning prev_round) (outside result) passed = passed + 1
passed_after (finalized r) next passed = passed + 1
passed_after _ _ passed = passed

abbrev pub rounds_after : Pc → ℕ → ℕ
rounds_after (finalized r) rounds = rounds + 1
rounds_after _ rounds = rounds

-- Thread `i`, which is `pc, passed`, makes its next access.
unfoldable pub turn_of : ℕ → Bool → System → Thread → System
unfolding wait
turn_of i finalizer s (pc, passed) =
    let (b, next) = wait finalizer s.barrier pc in
    record {
      barrier = b;
      rounds = rounds_after pc s.rounds;
      threads = set s.threads i (next, passed_after pc next passed);
    }

abbrev pub turn : ℕ → Bool → System → System
turn i finalizer s = turn_of i finalizer s (get_or s.threads i fresh)

-- A schedule names the thread that is next, and what the finalizer returns if it is called.
unfoldable pub run : List (ℕ × Bool) → System → System
run [] s = s
run ((i, finalizer) ∷ rest) s =
    run rest (if ltb i (length s.threads) then turn i finalizer s else s)
