-- ===== src/Rdma/Barrier.antt =====
-- `rdma_barrier_wait` of frontend/BenchmarkHelper.hpp: workers count themselves in a remote word and
-- wait until all have come.
use rdma_synchronization.Common.{
  ℕ, zero, suc, ◌+◌, ◌*◌, ◌/◌, ◌%◌, ◌^◌, ◌<◌, ◌≡◌, ◌≢◌, refl, ap, ◌∙◌, Bool, true, false, some,
  none, List, [], ◌∷◌, ◌==◌, if◌then◌else◌, arith, ne→==, eq→==,
}
use rdma_synchronization.Rdma.Request.{Context, post_fetch_add, post_read}
use rdma_synchronization.Rdma.Memory.{Memory, store, copy, copy_inside}
use rdma_synchronization.Rdma.Client.{
  Nic, IsVerbs, Client, Poll, Result, ok, fails, waits, Returns, M, ◌>>◌, post, follow, faa_lem,
  read_lem,
}

-- The poll loop of the barrier, which also looks at the status; `throw` has no exception to rethrow.
wait_success_list : List Poll → Client → Result (Unit {0})
wait_success_list [] c = waits
wait_success_list (none ∷ rest) c = fails
wait_success_list (some [] ∷ rest) c = wait_success_list rest c
wait_success_list (some (status ∷ more) ∷ rest) c =
    if status then ok tt (record c { polls = rest }) else fails

pub wait_success : M (Unit {0})
unfolding wait_success_list
wait_success c = wait_success_list c.polls c

module _ (nic : Nic) (others : ℕ → Memory → Memory) where
  -- `while (*barrier_value != expected)`, for as many rounds as `fuel`.
  spin : ℕ → ℕ → ℕ → ℕ → Context → M (Unit {0})
  spin zero expected barrier_addr buffer rctx c = waits
  spin (suc fuel) expected barrier_addr buffer rctx c =
      let again = spin fuel expected barrier_addr buffer rctx in
      if c.world.local buffer == expected
      then ok tt c
      else follow (post nic others (post_read buffer rctx true barrier_addr 8 0) c)
          (λ _. wait_success >> again)

  pub rdma_barrier_wait : ℕ → ℕ → ℕ → ℕ → ℕ → Context → M (Unit {0})
  unfolding spin wait_success
  rdma_barrier_wait fuel all_worker barrier_addr stage buffer rctx = do
    post nic others (post_fetch_add 1 buffer rctx true barrier_addr false)
    wait_success
    spin fuel (all_worker * stage % 2 ^ 64) barrier_addr buffer rctx

  -- The same for the workers of all storage nodes.
  pub rdma_barrier_nam_wait : ℕ → ℕ → ℕ → ℕ → ℕ → ℕ → Context → M (Unit {0})
  unfolding rdma_barrier_wait
  rdma_barrier_nam_wait fuel worker storage_nodes barrier_addr stage buffer rctx =
      rdma_barrier_wait fuel (worker * storage_nodes) barrier_addr stage buffer rctx

module _ (nic : Nic) (verbs : IsVerbs nic) (others : ℕ → Memory → Memory) where
  -- Once all other workers have counted themselves in, the last one counts itself in, and returns after
  -- one read of the word, which shows the expected number; where the others leave the word alone
  -- between its fetch-and-add and its read, a read of this one word shows it as it is, its two
  -- completions come with success, and the number does not wrap around.
  pub last_worker_returns :
      (all_worker barrier_addr stage buffer : ℕ) (rctx : Context) (c : Client)
      (more1 more2 : List Bool) (rest : List Poll) (fuel : ℕ)
      → c.polls ≡ some (true ∷ more1) ∷ some (true ∷ more2) ∷ rest
      → others c.now c.world.remote barrier_addr + 1 ≡ all_worker * stage
      → all_worker * stage < 2 ^ 64
      → ((m : Memory) → others (c.now + 1) m barrier_addr ≡ m barrier_addr)
      → ((m : Memory)
          → nic.view (post_read buffer rctx true barrier_addr 8 0) m barrier_addr ≡ m barrier_addr)
      → Returns
          (rdma_barrier_wait nic others (fuel + 2) all_worker barrier_addr stage buffer rctx c)
          (λ c'. (c'.now ≡ c.now + 2) × (c'.world.remote barrier_addr ≡ all_worker * stage))
  unfolding rdma_barrier_wait spin wait_success wait_success_list
  last_worker_returns all_worker barrier_addr stage buffer rctx c more1 more2 rest fuel polls last
        small alone shows =
      rw (two, faa_lem nic others verbs)
        (rw polls (
          rw (here, ne→== _ _ early)
            (rw (read_lem nic others verbs)
              (rw (seen, eq→== expected expected refl) (omega arith, there)))))
    where
      two : fuel + 2 ≡ suc (suc fuel)
      two = omega arith

      here : (buffer == buffer) ≡ true
      here = ground arith

      expected : ℕ
      expected = all_worker * stage % 2 ^ 64

      arrived : Memory
      arrived = others c.now c.world.remote

      early : arrived barrier_addr ≢ expected
      early e = omega (arith, e)

      counted : Memory
      counted =
          others (c.now + 1) (store arrived barrier_addr ((arrived barrier_addr + 1) % 2 ^ 64))

      there : counted barrier_addr ≡ all_worker * stage
      there = alone _ ∙ ground (arith, last, small)

      view : Memory
      view = nic.view (post_read buffer rctx true barrier_addr 8 0) counted

      first : Memory
      first = store c.world.local buffer (arrived barrier_addr)

      seen : copy (8 / 8) view barrier_addr first buffer buffer ≡ expected
      seen =
          ap (copy 1 view barrier_addr first buffer) (omega arith)
          ∙ copy_inside 1 view barrier_addr first buffer 0 (omega arith)
          ∙ ap view (omega arith)
          ∙ shows counted
          ∙ omega (arith, there)
