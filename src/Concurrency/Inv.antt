-- ===== src/Concurrency/Inv.antt =====
-- The invariant of the barrier, kept by every access of every thread.
use rdma_synchronization.Common.{
  ℕ, ◌+◌, ◌%◌, ◌^◌, ◌<◌, ◌≤◌, ◌≡◌, ◌≢◌, ◌⊎◌, inl, inr, refl, ap, ◌∙◌, Bool, false, some, List, [],
  ◌∷◌, ◌==◌, ltb, if◌then◌else◌, arith, length, get_or, set, length-set, get_or-set_self,
  get_or-set_ne, length-replicate, Bool-cases, ==→eq, ℕ_discrete,
}
use rdma_synchronization.Common.Sums.{
  sum, sum-add, sum-set, member, two_members, sum-replicate, get_or-replicate, sum-zero, sum-full,
}
use rdma_synchronization.Concurrency.{
  new_barrier, outside, loaded, spinning, last, refilled, finalized, wait, Thread, System, fresh,
  init, turn_of, turn, run,
}

-- A thread that has come to round `k` and waits for its end.
unfoldable pub arrived : ℕ → Thread → ℕ
arrived k (spinning p, passed) = if passed == k then 1 else 0
arrived k (_, passed) = 0

-- The last thread of a round, before and after it sets `cntr`.
unfoldable pub lasts : Thread → ℕ
lasts (last, passed) = 1
lasts (_, passed) = 0

unfoldable pub refills : Thread → ℕ
refills (refilled, passed) = 1
refills (finalized r, passed) = 1
refills (_, passed) = 0

-- A thread in round `k`: it has passed `k` rounds, or has not yet seen that round `k - 1` is over.
unfoldable pub Good : ℕ → Thread → Type 0
Good k (loaded p, passed) = (passed ≡ k) × (p ≡ k % 2 ^ 8)
Good k (spinning p, passed) = ((passed ≡ k) ⊎ (passed + 1 ≡ k)) × (p ≡ passed % 2 ^ 8)
Good k (_, passed) = passed ≡ k

-- `cntr` counts down from `n`, to 0 with the last thread, which sets it to `n` again.
unfoldable pub Counted : (n cntr arrivals lasts refills : ℕ) → Type 0
Counted n c a l f =
    ((l ≡ 0) × (f ≡ 0) × (0 < c) × (c + a ≡ n))
    ⊎ (((l ≡ 1) × (f ≡ 0) × (c ≡ 0) × (a + 1 ≡ n)) ⊎ ((l ≡ 0) × (f ≡ 1) × (c ≡ n) × (a + 1 ≡ n)))

pub record Inv (n : ℕ) (s : System) : Type 0 where
  pub size : length s.threads ≡ n
  pub total : s.barrier.thread_count ≡ n
  pub small : (0 < n) × (n < 2 ^ 64)
  pub word : s.barrier.round ≡ s.rounds % 2 ^ 8
  pub good : (i : ℕ) → i < n → Good s.rounds (get_or s.threads i fresh)
  pub count :
      Counted n s.barrier.cntr
        (sum (arrived s.rounds) s.threads)
        (sum lasts s.threads)
        (sum refills s.threads)

-- At most one of the three holds of a thread.
abbrev pub busy : ℕ → Thread → ℕ
busy k t = arrived k t + (lasts t + refills t)

busy-le : (k : ℕ) (t : Thread) → busy k t ≤ 1
unfolding arrived lasts refills
busy-le k (outside r, p) = omega arith
busy-le k (loaded r, p) = omega arith
busy-le k (spinning r, p) = ground arith
busy-le k (last, p) = omega arith
busy-le k (refilled, p) = omega arith
busy-le k (finalized r, p) = omega arith

sum-busy :
    (k : ℕ) (ts : List Thread)
    → sum (busy k) ts ≡ sum (arrived k) ts + (sum lasts ts + sum refills ts)
sum-busy k ts =
    omega (arith, sum-add (arrived k) (λ t. lasts t + refills t) ts, sum-add lasts refills ts)

module _ {n : ℕ} {s : System} (inv : Inv n s) where
  open inv use {size, total, small, word, good, count}

  -- While a round has its last thread, every other thread has arrived.
  all_busy :
      (i : ℕ)
      → i < n
      → 0 < sum lasts s.threads + sum refills s.threads
      → busy s.rounds (get_or s.threads i fresh) ≡ 1
  unfolding Counted
  all_busy i lt leads =
      sum-full fresh (busy s.rounds) s.threads i (busy-le s.rounds) (omega (arith, size))
        (ground (arith, size, count, sum-busy s.rounds s.threads))

  module _ (i : ℕ) (lt : i < n) where
    abbrev at : Thread
    at = get_or s.threads i fresh

    -- The state after thread `i` has become `t`, in the same round.
    abbrev with_thread : ℕ → Thread → System
    with_thread c t = record {
      barrier = record s.barrier { cntr = c };
      rounds = s.rounds;
      threads = set s.threads i t;
    }

    after : (f : Thread → ℕ) (t : Thread) → sum f (set s.threads i t) + f at ≡ sum f s.threads + f t
    after f t = sum-set fresh f s.threads i t (omega (arith, size))

    good_after :
        (t : Thread)
        → Good s.rounds t
        → (j : ℕ) → j < n
        → Good s.rounds (get_or (set s.threads i t) j fresh)
    good_after t g j lt_j = elim (ℕ_discrete i j) [
      | yes e ↦ rw (← e, get_or-set_self s.threads i t fresh (omega (arith, size))) g
      | no ne ↦ rw (get_or-set_ne s.threads i j t fresh ne) (good j lt_j)
    ]

    was : (t : Thread) → at ≡ t → Good s.rounds t
    was t e = rw (← e) (good i lt)

    -- Thread `i` was `t` and becomes `t'`; the sums change by its share.
    moved :
        {c : ℕ} (t t' : Thread)
        → at ≡ t
        → Good s.rounds t'
        → ((a l f : ℕ)
            → a + arrived s.rounds t ≡ sum (arrived s.rounds) s.threads + arrived s.rounds t'
            → l + lasts t ≡ sum lasts s.threads + lasts t'
            → f + refills t ≡ sum refills s.threads + refills t'
            → Counted n c a l f)
        → Inv n (with_thread c t')
    moved t t' e g c = record {
      size = length-set s.threads i t' ∙ size;
      total = total;
      small = small;
      word = word;
      good = good_after t' g;
      count =
          c _ _ _ (omega (arith, after (arrived s.rounds) t', ap (arrived s.rounds) e))
            (omega (arith, after lasts t', ap lasts e))
            (omega (arith, after refills t', ap refills e));
    }

    not_led :
        (t : Thread)
        → at ≡ t
        → busy s.rounds t ≡ 0
        → sum lasts s.threads + sum refills s.threads ≡ 0
    not_led t e idle = ground (arith, all_busy i lt, ap (busy s.rounds) e)

    leads : (f : Thread → ℕ) (t : Thread) → at ≡ t → f t ≤ sum f s.threads
    leads f t e = omega (arith, member fresh f s.threads i (omega (arith, size)), ap f e)

    -- A thread that has come and waits is released when the round is counted.
    released :
        (t : Thread)
        → Good s.rounds t
        → arrived s.rounds t ≡ 1
        → Good (s.rounds + 1) t × (arrived (s.rounds + 1) t ≡ 0)
    unfolding Good arrived
    released (spinning p, k) g a = ground (arith, g, a)
    released (outside x, k) g a = absurd (omega arith)
    released (loaded p, k) g a = absurd (omega arith)
    released (last, k) g a = absurd (omega arith)
    released (refilled, k) g a = absurd (omega arith)
    released (finalized x, k) g a = absurd (omega arith)

    -- With a thread between its two writes of the barrier, every other thread has come.
    pub others_arrived :
        refills at ≡ 1 → (j : ℕ) → j < n → i ≢ j → arrived s.rounds (get_or s.threads j fresh) ≡ 1
    unfolding Counted
    others_arrived one j lt_j ne = ground (
      arith,
      all_busy j lt_j,
      count,
      one,
      two_members fresh refills s.threads i j (omega (arith, size)) (omega (arith, size)) ne,
      member fresh lasts s.threads j (omega (arith, size)),
    )

    module _ (x : Bool) (k : ℕ) (e : at ≡ (finalized x, k)) where
      led : 1 ≤ sum refills s.threads
      unfolding refills
      led = omega (arith, member fresh refills s.threads i (omega (arith, size)), ap refills e)

      out : Thread
      out = (outside (some x), k + 1)

      all_released :
          (j : ℕ)
          → j < n
          → let t = get_or (set s.threads i out) j fresh in
            Good (s.rounds + 1) t × (arrived (s.rounds + 1) t ≡ 0)
      unfolding Good arrived refills out
      all_released j lt_j = elim (ℕ_discrete i j) [
        | yes same ↦
            rw (← same, get_or-set_self s.threads i out fresh (omega (arith, size)))
              (ap (λ r. r + 1) (was (finalized x, k) e), refl)
        | no ne ↦
            rw (get_or-set_ne s.threads i j out fresh ne)
              (released _ (good j lt_j) (others_arrived (ap refills e) j lt_j ne))
      ]

      next_round : (r : Bool) → Inv n (turn_of i r s (finalized x, k))
      unfolding turn_of wait Counted refills lasts out
      next_round r = record {
        size = length-set s.threads i out ∙ size;
        total = total;
        small = small;
        word = omega (arith, word);
        good = λ j lt_j. (all_released j lt_j).0;
        count = ground (
          arith,
          count,
          after refills out,
          after lasts out,
          ap refills e,
          ap lasts e,
          led,
          sum-zero fresh (arrived (s.rounds + 1)) (set s.threads i out)
              (λ j lt_j. (all_released j (omega (arith, length-set s.threads i out, size))).1),
        );
      }

    turn-Inv : (t : Thread) (r : Bool) → at ≡ t → Inv n (turn_of i r s t)
    unfolding turn_of wait Good arrived lasts refills Counted
    turn-Inv (outside x, k) r e =
        moved (outside x, k) _ e (was (outside x, k) e, word)
          (λ a l f ea el ef. ground (arith, count, ea, el, ef))
    turn-Inv (loaded p, k) r e = elim (Bool-cases (s.barrier.cntr == 1)) [
      | inl h ↦ rw h (
          moved (loaded p, k) (last, k) e (was (loaded p, k) e).0
            (λ a l f ea el ef.
              ground (arith, count, ea, el, ef, not_led (loaded p, k) e refl, ==→eq _ _ h)))
      | inr h ↦ rw h (
          moved (loaded p, k) (spinning p, k) e (ground (arith, was (loaded p, k) e))
            (λ a l f ea el ef.
              ground (
                arith,
                count,
                ea,
                el,
                ef,
                not_led (loaded p, k) e refl,
                small,
                was (loaded p, k) e,
              )))
    ]
    turn-Inv (last, k) r e =
        moved (last, k) (refilled, k) e (was (last, k) e)
          (λ a l f ea el ef. ground (arith, count, ea, el, ef, total, leads lasts (last, k) e))
    turn-Inv (refilled, k) r e =
        moved (refilled, k) (finalized r, k) e (was (refilled, k) e)
          (λ a l f ea el ef. ground (arith, count, ea, el, ef))
    turn-Inv (finalized x, k) r e = next_round x k e r
    turn-Inv (spinning p, k) r e = elim (Bool-cases (s.barrier.round == p)) [
      | inl h ↦ rw h (
          moved (spinning p, k) (spinning p, k) e (was (spinning p, k) e)
            (λ a l f ea el ef. ground (arith, count, ea, el, ef)))
      | inr h ↦ rw h (
          moved (spinning p, k) (outside (some false), k + 1) e
            (ground (arith, h, word, was (spinning p, k) e))
            (λ a l f ea el ef. ground (arith, count, ea, el, ef, word, was (spinning p, k) e)))
    ]

Inv-init : (n : ℕ) → 0 < n → n < 2 ^ 64 → Inv n (init n)
unfolding new_barrier Counted arrived lasts refills Good
Inv-init n pos small = record {
  size = length-replicate n fresh;
  total = refl;
  small = (pos, small);
  word = refl;
  good = λ i lt. rw (get_or-replicate n i fresh) refl;
  count = inl (
    sum-replicate lasts n fresh refl,
    sum-replicate refills n fresh refl,
    pos,
    omega (arith, sum-replicate (arrived 0) n fresh refl),
  );
}

run-Inv : (schedule : List (ℕ × Bool)) {n : ℕ} (s : System) → Inv n s → Inv n (run schedule s)
unfolding run
run-Inv [] s inv = inv
run-Inv ((i, r) ∷ rest) s inv = elim (Bool-cases (ltb i (length s.threads))) [
  | inl h ↦ rw h (run-Inv rest (turn i r s) (turn-Inv inv i (ground (arith, h, inv.size)) _ r refl))
  | inr h ↦ rw h (run-Inv rest s inv)
]

pub reached :
    (n : ℕ) (schedule : List (ℕ × Bool)) → 0 < n → n < 2 ^ 64 → Inv n (run schedule (init n))
reached n schedule pos small = run-Inv schedule (init n) (Inv-init n pos small)
