-- ===== src/Lock/Tail/Safety.antt =====
-- What the lock word in the tail of a tuple guarantees in every reachable state.
use rdma_synchronization.Common.{
  ℕ, ◌+◌, ◌*◌, ◌%◌, ◌^◌, ◌<◌, ◌≤◌, ◌≡◌, ◌≢◌, ◌⊎◌, inl, inr, refl, ap, ◌∙◌, ◌==◌, arith, length,
  get_or, set, replicate, length-set, length-replicate, Bool-cases, bit_and,
}
use rdma_synchronization.Common.Word.{bit_and-mask}
use rdma_synchronization.Common.Sums.{sum, sum-set, member, two_members, sum-replicate, sum-bound}
use rdma_synchronization.Lock.Config.{unlocked}
use rdma_synchronization.Lock.Tail.System.{
  Phase, idle, writing, reading, Request, System, next_word, next_phase, Sends, idle_x, idle_s,
  writing_x, reading_s, reading_order, request, Reach, start, step,
}

abbrev writers : Phase → ℕ
writers writing = 1
writers _ = 0

abbrev readers : Phase → ℕ
readers reading = 1
readers _ = 0

-- With no writer the word counts the readers, and those that have sent `s_order_release` since the last
-- write back. With a writer it is odd, and says nothing else: the readers that have failed are in it
-- until the writer frees the lock.
pub record Inv (n : ℕ) (s : System) : Type 0 where
  pub size : length s.phases ≡ n
  pub state :
      ((sum writers s.phases ≡ 0)
        × (2 * sum readers s.phases ≤ s.word)
        × (s.word ≤ 2 * sum readers s.phases + 2 * s.order_releases)
        × (s.word % 2 ≡ 0))
      ⊎ ((sum writers s.phases ≡ 1) × (sum readers s.phases ≡ 0) × (s.word % 2 ≡ 1))

readers-1 : (p : Phase) → readers p ≤ 1
readers-1 idle = omega arith
readers-1 writing = omega arith
readers-1 reading = omega arith

module _ (n : ℕ) (s : System) (inv : Inv n s) (i : ℕ) (below : i < n)
    (few : n + s.order_releases < 2 ^ 62) where
  open inv use {size, state}

  inside : i < length s.phases
  inside = omega (arith, size)

  after :
      (f : Phase → ℕ) (p : Phase)
      → sum f (set s.phases i p) + f (get_or s.phases i idle) ≡ sum f s.phases + f p
  after f p = sum-set idle f s.phases i p inside

  old : {p : Phase} (f : Phase → ℕ) → get_or s.phases i idle ≡ p → f (get_or s.phases i idle) ≡ f p
  old f e = ap f e

  bound : sum readers s.phases ≤ n
  bound = omega (arith, sum-bound readers s.phases readers-1, size)

  low_bit : bit_and s.word 1 ≡ s.word % 2
  low_bit = bit_and-mask 1 s.word

  Sends-Inv :
      {p : Phase} {r : Request} → Sends p r → get_or s.phases i idle ≡ p → Inv n (request s i r)
  unfolding request next_word next_phase
  Sends-Inv idle_x e = elim (Bool-cases (s.word == unlocked)) [
    | inl h ↦ rw h (record {
      size = length-set s.phases i writing ∙ size;
      state = ground (
        arith,
        state,
        after writers writing,
        after readers writing,
        old writers e,
        old readers e,
      );
    })
    | inr h ↦ rw h (record {
      size = length-set s.phases i idle ∙ size;
      state =
          ground
            (arith, state, after writers idle, after readers idle, old writers e, old readers e);
    })
  ]
  Sends-Inv idle_s e = elim (Bool-cases (bit_and s.word 1 == 1)) [
    | inl h ↦ rw h (record {
      size = length-set s.phases i idle ∙ size;
      state = ground (
        arith,
        low_bit,
        state,
        after writers idle,
        after readers idle,
        old writers e,
        old readers e,
      );
    })
    | inr h ↦ rw h (record {
      size = length-set s.phases i reading ∙ size;
      state = ground (
        arith,
        low_bit,
        bound,
        state,
        after writers reading,
        after readers reading,
        old writers e,
        old readers e,
      );
    })
  ]
  Sends-Inv writing_x e = record {
    size = length-set s.phases i idle ∙ size;
    state = ground (
      arith,
      state,
      member idle writers s.phases i inside,
      after writers idle,
      after readers idle,
      old writers e,
      old readers e,
    );
  }
  Sends-Inv reading_s e = record {
    size = length-set s.phases i idle ∙ size;
    state = ground (
      arith,
      state,
      bound,
      member idle readers s.phases i inside,
      after writers idle,
      after readers idle,
      old writers e,
      old readers e,
    );
  }
  Sends-Inv reading_order e = record {
    size = length-set s.phases i idle ∙ size;
    state = ground (
      arith,
      state,
      bound,
      member idle readers s.phases i inside,
      after writers idle,
      after readers idle,
      old writers e,
      old readers e,
    );
  }

Inv-start :
    (n : ℕ) (s : System)
    → s.word ≡ unlocked
    → s.phases ≡ replicate n idle
    → s.order_releases ≡ 0
    → Inv n s
Inv-start n s w ps none_sent = record {
  size = ap length ps ∙ length-replicate n idle;
  state = inl (
    ap (sum writers) ps ∙ sum-replicate writers n idle refl,
    omega (arith, w, ap (sum readers) ps, sum-replicate readers n idle refl),
    omega (arith, w, ap (sum readers) ps, sum-replicate readers n idle refl),
    omega (arith, w),
  );
}

Reach-Inv : {n : ℕ} {s : System} → n + s.order_releases < 2 ^ 62 → Reach n s → Inv n s
unfolding request
Reach-Inv {n} few (start s w ps none_sent) = Inv-start n s w ps none_sent
Reach-Inv {n} few (step s i r past below sends) =
    Sends-Inv n s (Reach-Inv (omega arith) past) i below (omega arith) sends refl

-- However the clients send their requests, with fewer than 2 ^ 62 clients and calls of
-- `s_order_release` together, and although a reader that fails does not take back what it has added:
-- while a client holds the lock to write, no other holds it, to write or to read. When every client is
-- outside, the word is even and at most twice the number of calls of `s_order_release`, so that it is
-- `UNLOCKED` if there were none.
pub writing-excludes :
    (n : ℕ) (s : System)
    → n + s.order_releases < 2 ^ 62
    → Reach n s
    → ((i j : ℕ)
        → i < n
        → j < n
        → i ≢ j
        → get_or s.phases i idle ≡ writing
        → get_or s.phases j idle ≡ idle)
      × (s.phases ≡ replicate n idle → (s.word % 2 ≡ 0) × (s.word ≤ 2 * s.order_releases))
writing-excludes n s few past = (
  λ i j below_i below_j ne w.
      outside (get_or s.phases j idle) (alone_w i j below_i below_j ne w)
        (alone_r i j below_i below_j w),
  λ ps. ground (
    arith,
    inv.state,
    ap (sum writers) ps,
    ap (sum readers) ps,
    sum-replicate writers n idle refl,
    sum-replicate readers n idle refl,
  ),
)
  where
    inv : Inv n s
    inv = Reach-Inv few past

    outside : (p : Phase) → writers p ≡ 0 → readers p ≡ 0 → p ≡ idle
    outside idle w r = refl
    outside writing w r = absurd (omega arith)
    outside reading w r = absurd (omega arith)

    alone_w :
        (i j : ℕ)
        → i < n
        → j < n
        → i ≢ j
        → get_or s.phases i idle ≡ writing
        → writers (get_or s.phases j idle) ≡ 0
    alone_w i j li lj ne w = ground (
      arith,
      inv.state,
      two_members idle writers s.phases i j (omega (arith, inv.size)) (omega (arith, inv.size)) ne,
      ap writers w,
    )

    alone_r :
        (i j : ℕ)
        → i < n
        → j < n
        → get_or s.phases i idle ≡ writing
        → readers (get_or s.phases j idle) ≡ 0
    alone_r i j li lj w = ground (
      arith,
      inv.state,
      member idle writers s.phases i (omega (arith, inv.size)),
      member idle readers s.phases j (omega (arith, inv.size)),
      ap writers w,
    )
