-- ===== src/Tests/Numbers.antt =====
-- A generator from a seed, and the draws of a worker of the benchmark.
use rdma_synchronization.Common.{ℕ, ◌+◌, ◌*◌, ◌<◌, ◌≤◌, ◌≡◌, refl, true, some, arith}
use rdma_synchronization.Common.Word.{add_u64}
use rdma_synchronization.Common.Options.{◌>>=◌, Returns, Returns-result}
use rdma_synchronization.Random.{MersenneTwister, new_twister, rnd, get_rand_u64}
use rdma_synchronization.Random.Twister.{IsValid, new_twister_lem}
use rdma_synchronization.Random.Bounds.{get_rand_u64_lem}
use rdma_synchronization.Benchmark.{increment_lines, all_equal}
use rdma_synchronization.Benchmark.Words.{all_equal-increment_lines}

abbrev ready : (g : MersenneTwister) × (new_twister 19650218 0 5 ≡ some g) × IsValid g
ready =
    Returns-result (new_twister 19650218 0 5)
      (new_twister_lem 19650218 0 5 (omega arith) (omega arith) (omega arith))

get_rand_u64_example :
    Returns
      (do (drawn, g) ← rnd ready.0; r ← get_rand_u64 drawn 48 123; some (r, g))
      (λ (r, g). (48 ≤ r) × (r < 123) × IsValid g)
get_rand_u64_example = get_rand_u64_lem 48 123 (omega arith) (omega arith) ready.0 ready.2

drawn_line : get_rand_u64 11 0 4 ≡ some 3
unfolding get_rand_u64
drawn_line = refl

drawn_place : get_rand_u64 5 3 6 ≡ some 5
unfolding get_rand_u64
drawn_place = refl

all_equal_example :
    let m = increment_lines 0 2 0 (λ a. 9) in
    ((l i : ℕ) → l < 2 → 3 ≤ i → i < 6 → m (0 + 8 * (l * 8 + i)) ≡ add_u64 9 1)
    × (all_equal 0 (m (0 + 8 * 3)) 2 0 m ≡ true)
all_equal_example = all_equal-increment_lines 0 2 9 (λ a. 9) (omega arith) (λ l i lt low high. refl)
