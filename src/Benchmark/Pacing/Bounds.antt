-- ===== src/Benchmark/Pacing/Bounds.antt =====
-- What is in the send queue of a writer.
use rdma_synchronization.Common.{
  Bool, ℕ, zero, suc, ◌+◌, ◌-◌, ◌*◌, ◌%◌, ◌^◌, ◌<◌, ◌≤◌, ◌≡◌, ◌⊎◌, inl, inr, refl, ap, ◌∙◌, true,
  false, some, List, [], ◌∷◌, ◌++◌, ◌==◌, if◌then◌else◌, arith, length, eq→==, ne→==, dec_lt,
}
use rdma_synchronization.Common.Word.{add_u64, bit_and-mask, pow_pos}
use native.Mathlib.Nat.{suc-mod, mod-lt, mod-le, mod-eq_of_lt, mod_self}
use rdma_synchronization.Benchmark.Pacing.{
  SendQueue, empty_queue, post_one, poll_pending, write_once, write_many,
}

mod_step :
    (n P : ℕ)
    → 0 < P
    → ((n % P + 1 < P) × ((n + 1) % P ≡ n % P + 1)) ⊎ ((n % P + 1 ≡ P) × ((n + 1) % P ≡ 0))
mod_step n P pos = elim (dec_lt (n % P + 1) P) [
  | yes lt ↦ inl (lt, both ∙ mod-eq_of_lt lt)
  | no ge ↦
      let e : n % P + 1 ≡ P = omega (arith, mod-lt n pos) in
      inr (e, both ∙ ap (λ (x : ℕ). x % P) e ∙ mod_self P)
]
  where
    both : (n + 1) % P ≡ (n % P + 1) % P
    both = ap (λ (x : ℕ). x % P) (omega arith) ∙ suc-mod n P ∙ ap (λ (x : ℕ). x % P) (omega arith)

-- Between two signaled writes: none is to come, or the first of the round is, or its completion has been
-- taken.
data Inv (P : ℕ) (s : SendQueue) : Type 0 where
  begins : s.wqe % P ≡ 0 → s.pending ≡ [] → s.wqe ≤ s.retired + P → Inv P s
  waiting :
      0 < s.wqe % P
      → s.wqe % P + 1 < P
      → s.pending ≡ (s.wqe - s.wqe % P) ∷ []
      → s.wqe ≤ s.retired + P + s.wqe % P
      → Inv P s
  polled : 0 < s.wqe % P → s.wqe % P + 1 ≡ P → s.pending ≡ [] → s.wqe + 1 ≤ s.retired + P → Inv P s

module _ (p : ℕ) where
  abbrev P : ℕ
  P = 2 ^ p

  abbrev mask : ℕ
  mask = P - 1

  pos : 0 < P
  pos = pow_pos p

  -- One round, by whether the write is signaled and whether a poll follows.
  round_lem :
      (s : SendQueue) (r r' : ℕ) (signaled polls : Bool)
      → s.wqe + 1 < 2 ^ 64
      → s.wqe % P ≡ r
      → (s.wqe + 1) % P ≡ r'
      → (r == 0) ≡ signaled
      → (r' == mask) ≡ polls
      → write_once mask s ≡ (
          let s1 : SendQueue = record s {
            wqe = s.wqe + 1;
            pending = if signaled then s.pending ++ (s.wqe ∷ []) else s.pending;
          } in
          if polls then poll_pending s1.pending s1 else some s1)
  unfolding write_once post_one
  round_lem s r r' signaled polls small e e' f f' =
      rw (counted, bit_and-mask p s.wqe, e, f, bit_and-mask p (s.wqe + 1), e', f') refl
    where
      counted : add_u64 s.wqe 1 ≡ s.wqe + 1
      counted = omega arith

  -- The queue after one more write.
  abbrev after : SendQueue → List ℕ → ℕ → SendQueue
  after s pending retired = record { wqe = s.wqe + 1; pending = pending; retired = retired }

  -- A round returns, with the invariant again and one write more.
  abbrev Goes : SendQueue → Type 0
  Goes s = (s' : SendQueue) × (write_once mask s ≡ some s') × Inv P s' × (s'.wqe ≡ s.wqe + 1)

  write_once-Inv : (s : SendQueue) → s.wqe + 1 < 2 ^ 64 → Inv P s → Goes s
  unfolding poll_pending
  write_once-Inv s small (begins r e b) = elim (mod_step s.wqe P pos) [
    | inr (last, zero') ↦ (
      after s [] (s.wqe + 1),
      round_lem s 0 0 true true small r zero' refl (eq→== _ _ (omega (arith, last, r))) ∙ rw e refl,
      begins zero' refl (omega (arith, pos)),
      refl,
    )
    | inl (more, one') ↦
        let first : (s.wqe + 1) % P ≡ 1 = one' ∙ omega (arith, r) in
        elim (dec_lt 2 P) [
          | yes two ↦ (
            after s (s.wqe ∷ []) s.retired,
            round_lem s 0 1 true false small r first refl (ne→== _ _ (omega (arith, two)))
                ∙ rw e refl,
            waiting (omega (arith, first)) (omega (arith, first, two))
                (ap (λ (x : ℕ). x ∷ []) (omega (arith, first))) (omega (arith, first, b)),
            refl,
          )
          | no two ↦ (
            after s [] (s.wqe + 1),
            round_lem s 0 1 true true small r first refl (eq→== _ _ (omega (arith, two, more, r)))
                ∙ rw e refl,
            polled (omega (arith, first)) (omega (arith, first, two, more, r)) refl
                (omega (arith, two, more, r)),
            refl,
          )
        ]
  ]
  write_once-Inv s small (waiting r lt e b) = elim (mod_step s.wqe P pos) [
    | inr (last, zero') ↦ absurd (omega (arith, last, lt))
    | inl (more, next') ↦ elim (dec_lt (s.wqe % P + 2) P) [
      | yes two ↦ (
        after s s.pending s.retired,
        round_lem s _ (s.wqe % P + 1) false false small refl next' (ne→== _ _ (omega (arith, r)))
            (ne→== _ _ (omega (arith, two))),
        waiting (omega (arith, next')) (omega (arith, next', two))
            (e ∙ ap (λ (x : ℕ). x ∷ []) (omega (arith, next'))) (omega (arith, next', b)),
        refl,
      )
      | no two ↦ (
        after s [] (s.wqe - s.wqe % P + 1),
        round_lem s _ (s.wqe % P + 1) false true small refl next' (ne→== _ _ (omega (arith, r)))
              (eq→== _ _ (omega (arith, two, more)))
            ∙ rw e refl,
        polled (omega (arith, next')) (omega (arith, next', two, more)) refl
            (omega (arith, two, more, mod-le s.wqe P)),
        refl,
      )
    ]
  ]
  write_once-Inv s small (polled r last e b) = elim (mod_step s.wqe P pos) [
    | inl (more, next') ↦ absurd (omega (arith, last, more))
    | inr (again, zero') ↦ (
      after s s.pending s.retired,
      round_lem s _ 0 false false small refl zero' (ne→== _ _ (omega (arith, r)))
          (ne→== _ _ (omega (arith, r, last))),
      begins zero' e (omega (arith, b)),
      refl,
    )
  ]

  write_many-Inv :
      (n : ℕ) (s : SendQueue)
      → s.wqe + n < 2 ^ 64
      → Inv P s
      → (s' : SendQueue) × (write_many mask n s ≡ some s') × Inv P s' × (s'.wqe ≡ s.wqe + n)
  unfolding write_many
  write_many-Inv zero s small v = (s, refl, v, omega arith)
  write_many-Inv (suc n) s small v =
      let (s1, e1, v1, w1) = write_once-Inv s (omega arith) v in
      let (s2, e2, v2, w2) = write_many-Inv n s1 (omega (arith, w1)) v1 in
      (s2, rw e1 e2, v2, omega (arith, w1, w2))

-- With a power of two for `write_speed`, each poll of the writer has a completion to come, at most one
-- is to come at any time, and fewer than two times `write_speed` writes are in the send queue.
pub write_many_returns :
    (p n : ℕ)
    → n < 2 ^ 64
    → (s : SendQueue) × (write_many (2 ^ p - 1) n empty_queue ≡ some s)
      × (length s.pending ≤ 1)
      × (s.wqe ≡ n)
      × (n < s.retired + 2 * 2 ^ p)
write_many_returns p n small =
    let (s, e, v, w) = write_many-Inv p n empty_queue (omega arith) empty in
    (s, e, few s v, omega (arith, w), bound s v (omega (arith, w)))
  where
    empty : Inv (2 ^ p) empty_queue
    empty = begins (mod-eq_of_lt (pow_pos p)) refl (omega arith)

    few : (s : SendQueue) → Inv (2 ^ p) s → length s.pending ≤ 1
    few s (begins r e b) = rw e (omega arith)
    few s (waiting r lt e b) = rw e (omega arith)
    few s (polled r last e b) = rw e (omega arith)

    bound : (s : SendQueue) → Inv (2 ^ p) s → s.wqe ≡ n → n < s.retired + 2 * 2 ^ p
    bound s (begins r e b) w = omega (arith, pow_pos p, b, w)
    bound s (waiting r lt e b) w = omega (arith, lt, b, w)
    bound s (polled r last e b) w = omega (arith, b, w)
