-- ===== src/Tests/Tails.antt =====
-- Clients at a lock in the last word of a tuple.
use rdma_synchronization.Common.{
  ℕ, ◌+◌, ◌*◌, ◌%◌, ◌≤◌, ◌<◌, ◌≡◌, ◌≢◌, refl, true, false, some, [], ◌∷◌, arith, get_or, replicate,
}
use rdma_synchronization.Rdma.Client.{Returns}
use rdma_synchronization.Lock.Tail.{Worker, x_unlock, s_order_release}
use rdma_synchronization.Lock.Tail.System.{
  idle, writing, Request, System, next_word, idle_x, idle_s, next_phase, request, Reach, start,
  step,
}
use rdma_synchronization.Lock.Tail.Safety.{writing-excludes}
use rdma_synchronization.Lock.Tail.Word.{x_unlock-publishes, s_order_release_misses}
use rdma_synchronization.Tests.Locks.{card, card-IsVerbs, quiet, ctx, ready}

abbrev free_system : System
free_system = record { word = 0; phases = replicate 2 idle; order_releases = 0 }

-- The first client has locked to write, and the second has failed to read.
abbrev one_failed : System
one_failed = request (request free_system 0 Request.x_lock) 1 Request.s_lock

one_failed-Reach : Reach 2 one_failed
unfolding request next_phase
one_failed-Reach =
    step (request free_system 0 Request.x_lock) 1 Request.s_lock
      (step free_system 0 Request.x_lock (start free_system refl refl refl) (omega arith) idle_x)
      (omega arith) idle_s

writing-excludes_example :
    ((i j : ℕ)
      → i < 2
      → j < 2
      → i ≢ j
      → get_or one_failed.phases i idle ≡ writing
      → get_or one_failed.phases j idle ≡ idle)
    × (one_failed.phases ≡ replicate 2 idle
        → (one_failed.word % 2 ≡ 0) × (one_failed.word ≤ 2 * one_failed.order_releases))
unfolding request
writing-excludes_example = writing-excludes 2 one_failed (omega arith) one_failed-Reach

abbrev worker : Worker
worker = record { rctx = ctx; old = 8; speculative_read = false; order_release = false }

x_unlock_example : Returns (x_unlock card quiet worker 64 ready) (λ c'.
    ((i : ℕ) → i < 7 → c'.world.remote (64 + 8 * i) ≡ ready.world.local (8 + 8 * i))
    × (c'.world.remote (64 + 56) ≡ next_word Request.x_unlock 0))
x_unlock_example =
    x_unlock-publishes card card-IsVerbs quiet worker 64 ready [] (some (true ∷ []) ∷ []) refl

s_order_release_example :
    Returns (s_order_release card quiet worker 64 ready) (λ c'. c'.world.remote (64 + 56) ≡ 0)
s_order_release_example = s_order_release_misses card card-IsVerbs quiet worker 64 ready
