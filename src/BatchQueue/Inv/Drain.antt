-- ===== src/BatchQueue/Inv/Drain.antt =====
-- The guard variable of the pops, and `reset`.
use rdma_synchronization.Common.{
  count, ℕ, zero, suc, ◌^◌, ◌<◌, ◌≡◌, refl, false, none, some, List, [], ◌∷◌, ◌==◌, arith, length,
  update, Bool-cases, inl, inr, All, ◌↔◌, ne→==, eq→==, ==→eq, ◌∙◌,
}
use rdma_synchronization.Common.Options.{Returns, Returns-result}
use rdma_synchronization.Container.Interface.{Container, pop_front}
use rdma_synchronization.BatchQueue.{
  Batch, BatchQueue, link_empty, unlink_full, try_push_empty, try_pop_full, reset, reset_loop,
  reset_round, decrement_elements,
}
use rdma_synchronization.BatchQueue.Chain.{total, total-update}
use rdma_synchronization.BatchQueue.Inv.Links.{Inv, link_empty-Inv, unlink_full-Inv, refill-Inv}
use rdma_synchronization.BatchQueue.Inv.Duplicates.{assert_no_duplicates_lem}
use rdma_synchronization.BatchQueue.Inv.Ops.{Rests, try_pop_full-Rests, unlatch, latch-Inv}

module _ {A : Type 0} (C : Container A) where
  -- `push_full` asserts that a full batch holds an element at least.
  abbrev pub AllFilled : (ℕ → Batch C) → List ℕ → Type 0
  AllFilled h = All (λ b. 0 < C.get_size (h b).container)

  AllFilled-update :
      (h : ℕ → Batch C) (a : ℕ) (x : Batch C) (l : List ℕ)
      → count a l ≡ 0
      → AllFilled h l
      → AllFilled (update h a x) l
  AllFilled-update h a x [] e f = f
  AllFilled-update h a x (b ∷ l) e f = ground (arith, AllFilled-update h a x l)

  guard-ne-zero :
      {q : BatchQueue C} {F E H : List ℕ} (b : ℕ)
      → Inv C q (b ∷ F) E H
      → AllFilled q.batches (b ∷ F)
      → total C q.batches (b ∷ F) < 2 ^ 64
      → (q.elements == 0) ≡ false
  guard-ne-zero b v filled small = ne→== _ _ (omega (arith, v.counted))

  popped :
      {q : BatchQueue C} {F E H : List ℕ} (b : ℕ)
      → Rests C q (b ∷ F) E H
      → (q.elements == 0) ≡ false
      → try_pop_full C q ≡ (some b, record (unlink_full C b q) { latch = false })
  unfolding try_pop_full
  popped b r more = rw (more, r.free, r.inv.chain_full.0)

  -- On a queue that satisfies the invariant with its latch free, where every full batch holds an element
  -- and these elements are fewer than 2 ^ 64, a pop from the full list fails exactly when the list is
  -- empty.
  pub try_pop_full-none :
      {q : BatchQueue C} {E H : List ℕ} (F : List ℕ)
      → Rests C q F E H
      → AllFilled q.batches F
      → total C q.batches F < 2 ^ 64
      → ((try_pop_full C q).0 ≡ none) ↔ (F ≡ [])
  unfolding pop_front
  try_pop_full-none {q} [] r filled small = elim (Bool-cases (q.elements == 0)) [
    | inl guard ↦ ((λ _. refl), λ _. ground (arith, (try_pop_full-Rests C [] r).0))
    | inr more ↦ ((λ _. refl), λ _. ground (arith, (try_pop_full-Rests C [] r).0))
  ]
  try_pop_full-none {q} (b ∷ F) r filled small =
      let more = guard-ne-zero b r.inv filled small in (λ e. cc (popped b r more), λ e. cc)

  -- The queue after one round of `reset`.
  abbrev drained : BatchQueue C → ℕ → BatchQueue C
  drained q b =
      let q1 = record (unlink_full C b q) { latch = false } in
      let cleaned = record (q1.batches b) { container = C.reset (q1.batches b).container } in
      record (link_empty C b (record q1 { batches = update q1.batches b cleaned })) {
        latch = false;
      }

  module _ {q : BatchQueue C} {F E H : List ℕ} (b : ℕ) where
    drained-Rests : Rests C q (b ∷ F) E H → Rests C (drained q b) F (b ∷ E) H
    unfolding decrement_elements
    drained-Rests r =
        let taken = unlink_full-Inv C b r.inv in
        let empty = C.reset_lem (q.batches b).container (r.inv.valid b) in
        unlatch C (
          link_empty-Inv C b
            (ground (arith, C.get_size_lem (C.reset (q.batches b).container) empty.0, empty.1))
            (refill-Inv C b empty.0 (latch-Inv C false taken)))

    reset_loop-suc :
        (fuel : ℕ)
        → Rests C q (b ∷ F) E H
        → (q.elements == 0) ≡ false
        → reset_loop C (suc fuel) q ≡ reset_loop C fuel (drained q b)
    unfolding reset_loop reset_round try_push_empty
    reset_loop-suc fuel r more = rw (popped b r more)

  apart : {q : BatchQueue C} {F E H : List ℕ} (b : ℕ) → Rests C q (b ∷ F) E H → count b F ≡ 0
  apart b r = ground (arith, r.inv.once b)

  nothing_left : {q : BatchQueue C} {E H : List ℕ} → Rests C q [] E H → try_pop_full C q ≡ (none, q)
  unfolding try_pop_full
  nothing_left {q} r = rw (eq→== q.elements 0 (omega (arith, r.inv.counted)))

  still_filled :
      {q : BatchQueue C} {F E H : List ℕ} (b : ℕ)
      → Rests C q (b ∷ F) E H
      → AllFilled q.batches F
      → AllFilled (drained q b).batches F
  unfolding decrement_elements
  still_filled {q} {F} b r f =
      let e = apart b r in AllFilled-update _ b _ F e (AllFilled-update q.batches b _ F e f)

  total-drained :
      {q : BatchQueue C} {F E H : List ℕ} (b : ℕ)
      → Rests C q (b ∷ F) E H
      → total C (drained q b).batches F ≡ total C q.batches F
  unfolding decrement_elements
  total-drained {q} {F} b r =
      let e = apart b r in total-update C _ b _ F e ∙ total-update C q.batches b _ F e

  reset_loop-Rests :
      (F : List ℕ) {q : BatchQueue C} {E H : List ℕ} (fuel : ℕ)
      → length F < fuel
      → Rests C q F E H
      → AllFilled q.batches F
      → total C q.batches F < 2 ^ 64
      → Returns (reset_loop C fuel q) (λ q'. (E' : List ℕ) × Rests C q' [] E' H × (q'.elements ≡ 0))
  unfolding reset_loop reset_round
  reset_loop-Rests F zero lt r filled small = absurd (omega arith)
  reset_loop-Rests [] {q} {E} (suc fuel) lt r filled small =
      rw (nothing_left r) (E, r, omega (arith, r.inv.counted))
  reset_loop-Rests (b ∷ F) {q} (suc fuel) lt r filled small =
      rw (reset_loop-suc b fuel r (guard-ne-zero b r.inv filled small)) (
        reset_loop-Rests F fuel (omega arith) (drained-Rests b r) (still_filled b r filled.1)
          (omega (arith, total-drained b r)))

  all_clean :
      (F : List ℕ) {q : BatchQueue C} {E H : List ℕ}
      → length F ≡ 0
      → Rests C q F E H
      → (E' : List ℕ) × Rests C q [] E' H × (q.elements ≡ 0)
  all_clean [] {q} {E} e r = (E, r, omega (arith, r.inv.counted))
  all_clean (b ∷ F) e r = absurd (omega arith)

  -- On a queue that satisfies the invariant with its latch free, where every batch on the full list holds
  -- an element and these elements are fewer than 2 ^ 64: `reset` ends, within as many rounds as there
  -- are full batches and one more, with every batch of the full list cleaned and on the empty list; its
  -- search for duplicates at the end never throws.
  pub reset-Rests :
      (F : List ℕ) {q : BatchQueue C} {E H : List ℕ} (fuel : ℕ)
      → length F < fuel
      → Rests C q F E H
      → AllFilled q.batches F
      → total C q.batches F < 2 ^ 64
      → Returns (reset C fuel q) (λ q'. (E' : List ℕ) × Rests C q' [] E' H × (q'.elements ≡ 0))
  unfolding reset
  reset-Rests F {q} {E} fuel lt r filled small = elim (Bool-cases (q.full.size == 0)) [
    | inl none_full ↦
        rw none_full (all_clean F (omega (arith, r.inv.full_size, ==→eq _ _ none_full)) r)
    | inr more ↦
        let (q', e, done) =
          Returns-result (reset_loop C fuel q) (reset_loop-Rests F fuel lt r filled small) in
        rw (more, e) (rw (assert_no_duplicates_lem C q' done.1.inv) done)
  ]
