-- ===== src/Concurrency/Safety.antt =====
-- What `Barrier` guarantees, for any number of threads and any interleaving.
use rdma_synchronization.Common.{
  ℕ, ◌+◌, ◌%◌, ◌^◌, ◌<◌, ◌≤◌, ◌≡◌, ◌≢◌, refl, ap, ◌∙◌, Bool, List, arith, get_or, eq→==, sym,
}
use rdma_synchronization.Common.Sums.{sum-short}
use rdma_synchronization.Concurrency.{
  Barrier, outside, loaded, spinning, last, refilled, finalized, Thread, fresh, wait, init, run,
}
use rdma_synchronization.Concurrency.Inv.{
  Inv, Good, Counted, arrived, refills, others_arrived, reached,
}

-- How many times the thread has come to the barrier, and how many times it has gone on.
abbrev pub comes : Thread → ℕ
comes (outside r, passed) = passed
comes (loaded p, passed) = passed
comes (_, passed) = passed + 1

abbrev pub goes_on : Thread → ℕ
goes_on (pc, passed) = passed

goes_on-le : (k : ℕ) (t : Thread) → Good k t → goes_on t ≤ k
unfolding Good
goes_on-le k (outside r, p) g = omega arith
goes_on-le k (loaded r, p) g = omega (arith, g)
goes_on-le k (spinning r, p) g = ground (arith, g)
goes_on-le k (last, p) g = omega arith
goes_on-le k (refilled, p) g = omega arith
goes_on-le k (finalized r, p) g = omega arith

le-comes : (k : ℕ) (t : Thread) → Good k t → k ≤ comes t
unfolding Good
le-comes k (outside r, p) g = omega arith
le-comes k (loaded r, p) g = omega (arith, g)
le-comes k (spinning r, p) g = ground (arith, g)
le-comes k (last, p) g = omega arith
le-comes k (refilled, p) g = omega arith
le-comes k (finalized r, p) g = omega arith

-- A thread that has not come to round `k`, or need not wait for its end, moves on.
moves :
    (k : ℕ) (t : Thread) (b : Barrier) (r : Bool)
    → b.round ≡ k % 2 ^ 8
    → Good k t
    → arrived k t ≡ 0
    → (wait r b t.0).1 ≢ t.0
unfolding Good arrived wait
moves k (outside x, p) b r w g a = ground arith
moves k (loaded x, p) b r w g a = ground arith
moves k (spinning x, p) b r w g a = ground (arith, w, g)
moves k (last, p) b r w g a = ground arith
moves k (refilled, p) b r w g a = ground arith
moves k (finalized x, p) b r w g a = ground arith

waits : (k : ℕ) (t : Thread) → Good k t → arrived k t ≡ 1 → t ≡ (spinning (k % 2 ^ 8), k)
unfolding Good arrived
waits k (spinning p, passed) g a = let e : passed ≡ k = ground (arith, a) in rw (g.1, e) refl
waits k (outside x, p) g a = absurd (omega arith)
waits k (loaded x, p) g a = absurd (omega arith)
waits k (last, p) g a = absurd (omega arith)
waits k (refilled, p) g a = absurd (omega arith)
waits k (finalized x, p) g a = absurd (omega arith)

at_finalizer : (k : ℕ) (t : Thread) → Good k t → t.0 ≡ refilled → goes_on t ≡ k
unfolding Good
at_finalizer k (refilled, p) g e = g
at_finalizer k (spinning x, p) g e = absurd cc
at_finalizer k (outside x, p) g e = g
at_finalizer k (loaded x, p) g e = g.0
at_finalizer k (last, p) g e = g
at_finalizer k (finalized x, p) g e = g

refills_refilled : (t : Thread) → t.0 ≡ refilled → refills t ≡ 1
unfolding refills
refills_refilled (pc, p) e = rw e refl

module _ (n : ℕ) (schedule : List (ℕ × Bool)) (pos : 0 < n) (small : n < 2 ^ 64) where
  abbrev thread : ℕ → Thread
  thread i = get_or (run schedule (init n)).threads i fresh

  inv : Inv n (run schedule (init n))
  inv = reached n schedule pos small

  -- No thread returns from its k-th `wait` before every thread has called `wait` k times.
  pub none_passes_early : (i j : ℕ) → i < n → j < n → goes_on (thread i) ≤ comes (thread j)
  none_passes_early i j lt_i lt_j =
      omega
        (arith, goes_on-le _ (thread i) (inv.good i lt_i), le-comes _ (thread j) (inv.good j lt_j))

  -- While the finalizer is about to run, every other thread is in its loop with the same number of
  -- rounds behind it, and its next look at the round sends it round the loop again.
  pub finalizer_alone :
      (i j : ℕ) (r : Bool)
      → i < n
      → j < n
      → i ≢ j
      → (thread i).0 ≡ refilled
      → (p : ℕ) × (thread j ≡ (spinning p, goes_on (thread i)))
        × ((wait r (run schedule (init n)).barrier (spinning p)).1 ≡ spinning p)
  unfolding wait
  finalizer_alone i j r lt_i lt_j ne e =
      let k = (run schedule (init n)).rounds in
      let passed : goes_on (thread i) ≡ k = at_finalizer k (thread i) (inv.good i lt_i) e in
      (
        k % 2 ^ 8,
        waits k (thread j) (inv.good j lt_j)
              (others_arrived inv i lt_i (refills_refilled (thread i) e) j lt_j ne)
            ∙ ap (λ m. (spinning (k % 2 ^ 8), m)) (sym passed),
        rw (eq→== _ _ inv.word) refl,
      )

  -- The threads never wait for one another for ever: some thread's next access takes it further.
  pub some_thread_moves :
      (r : Bool)
      → (i : ℕ) × (i < n) × ((wait r (run schedule (init n)).barrier (thread i).0).1 ≢ (thread i).0)
  unfolding Counted
  some_thread_moves r =
      let s = run schedule (init n) in
      let (i, lt, e) =
        sum-short fresh (arrived s.rounds) s.threads (ground (arith, inv.size, inv.count)) in
      (
        i,
        omega (arith, inv.size),
        moves s.rounds (thread i) s.barrier r inv.word (inv.good i (omega (arith, inv.size))) e,
      )
