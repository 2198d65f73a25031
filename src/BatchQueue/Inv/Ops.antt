-- ===== src/BatchQueue/Inv/Ops.antt =====
-- What each operation does to the two lists and to the batches that the callers own.
use rdma_synchronization.Common.{
  ℕ, ◌≡◌, refl, Bool, true, false, Option, none, some, List, [], ◌∷◌, ◌==◌, if◌then◌else◌,
  Bool-cases, inl, inr,
}
use rdma_synchronization.Common.Options.{Returns}
use rdma_synchronization.Container.Interface.{Container, pop_front}
use rdma_synchronization.BatchQueue.{
  BatchQueue, size_at, try_push_full, try_push_empty, try_pop_empty, try_pop_full,
  push_full_and_try_pop_empty, push_empty_and_try_pop_full,
}
use rdma_synchronization.BatchQueue.Inv.Links.{
  Inv, link_full-Inv, link_empty-Inv, unlink_full-Inv, unlink_empty-Inv,
}

-- What the callers own after a pop.
abbrev pub own : Option ℕ → List ℕ → List ℕ
own none held = held
own (some b) held = b ∷ held

-- Handing in batch `b` on the list `onto` for the first batch of the list `from`, and nothing
-- where that is empty: whether it is done, the caller's batch, and the two lists.
abbrev pub trade : ℕ → List ℕ → List ℕ → Bool × ℕ × List ℕ × List ℕ
trade b onto [] = (false, b, onto, [])
trade b onto (e ∷ from) = (true, e, b ∷ onto, from)

module _ {A : Type 0} (C : Container A) where
  -- The invariant, between two operations.
  pub record Rests (q : BatchQueue C) (fulls empties held : List ℕ) : Type 0 where
    pub inv : Inv C q fulls empties held
    pub free : q.latch ≡ false

  module _ {q : BatchQueue C} {F E H : List ℕ} where
    pub latch-Inv : (l : Bool) → Inv C q F E H → Inv C (record q { latch = l }) F E H
    latch-Inv l v = record {
      chain_full = v.chain_full;
      chain_empty = v.chain_empty;
      full_size = v.full_size;
      empty_size = v.empty_size;
      counted = v.counted;
      clean = v.clean;
      valid = v.valid;
      once = v.once;
      number = v.number;
      small = v.small;
    }

    pub unlatch : Inv C q F E H → Rests (record q { latch = false }) F E H
    unlatch v = record { inv = latch-Inv false v; free = refl }

  module _ {q : BatchQueue C} {F E H : List ℕ} (b : ℕ) where
    -- A push on the full list puts the caller's batch at its head.
    pub try_push_full-Rests :
        Rests q F E (b ∷ H)
        → Returns (try_push_full C b q) (λ (done, q'). (done ≡ true) × Rests q' (b ∷ F) E H)
    unfolding try_push_full
    try_push_full-Rests r = rw r.free (refl, unlatch (link_full-Inv C b (latch-Inv true r.inv)))

    -- A push on the empty list puts the caller's cleaned batch at its head.
    pub try_push_empty-Rests :
        size_at C q b ≡ 0
        → Rests q F E (b ∷ H)
        → Returns (try_push_empty C b q) (λ (done, q'). (done ≡ true) × Rests q' F (b ∷ E) H)
    unfolding try_push_empty
    try_push_empty-Rests bare r =
        rw r.free (refl, unlatch (link_empty-Inv C b bare (latch-Inv true r.inv)))

  module _ {q : BatchQueue C} {F H : List ℕ} where
    -- A pop from the empty list takes its head, and fails only where the list is empty.
    pub try_pop_empty-Rests :
        (E : List ℕ)
        → Rests q F E H
        → let (b, E') = pop_front E in
          Returns (try_pop_empty C q) (λ (out, q'). (out ≡ b) × Rests q' F E' (own b H))
    unfolding try_pop_empty pop_front
    try_pop_empty-Rests [] r = rw (r.free, r.inv.chain_empty) (refl, unlatch (latch-Inv true r.inv))
    try_pop_empty-Rests (b ∷ E) r =
        rw (r.free, r.inv.chain_empty.0)
          (refl, unlatch (unlink_empty-Inv C b (latch-Inv true r.inv)))

  module _ {q : BatchQueue C} {E H : List ℕ} where
    -- A pop from the full list takes its head, and fails only where the guard variable is 0 or the
    -- list is empty.
    pub try_pop_full-Rests :
        (F : List ℕ)
        → Rests q F E H
        → let (b, F') = if q.elements == 0 then (none, F) else pop_front F in
          let (out, q') = try_pop_full C q in (out ≡ b) × Rests q' F' E (own b H)
    unfolding try_pop_full pop_front
    try_pop_full-Rests [] r = elim (Bool-cases (q.elements == 0)) [
      | inl guard ↦ rw guard (refl, r)
      | inr more ↦ rw (more, r.free, r.inv.chain_full) (refl, unlatch (latch-Inv true r.inv))
    ]
    try_pop_full-Rests (b ∷ F) r = elim (Bool-cases (q.elements == 0)) [
      | inl guard ↦ rw guard (refl, r)
      | inr more ↦
          rw (more, r.free, r.inv.chain_full.0)
            (refl, unlatch (unlink_full-Inv C b (latch-Inv true r.inv)))
    ]

  module _ {q : BatchQueue C} {F H : List ℕ} (b : ℕ) where
    -- The combined call hands in a full batch for an empty one, or does nothing.
    pub push_full_and_try_pop_empty-Rests :
        (E : List ℕ)
        → Rests q F E (b ∷ H)
        → let (done, e, F', E') = trade b F E in
          Returns
            (push_full_and_try_pop_empty C b q)
            (λ (rc, out, q'). (rc ≡ done) × (out ≡ e) × Rests q' F' E' (e ∷ H))
    unfolding push_full_and_try_pop_empty
    push_full_and_try_pop_empty-Rests [] r =
        rw (r.free, r.inv.chain_empty) (refl, refl, unlatch (latch-Inv true r.inv))
    push_full_and_try_pop_empty-Rests (e ∷ E) r =
        rw (r.free, r.inv.chain_empty.0)
          (refl, refl, unlatch (unlink_empty-Inv C e (link_full-Inv C b (latch-Inv true r.inv))))

  module _ {q : BatchQueue C} {E H : List ℕ} (b : ℕ) where
    -- The combined call hands in a cleaned batch for a full one; it does nothing where the guard
    -- variable is 0 or no batch is full.
    pub push_empty_and_try_pop_full-Rests :
        (F : List ℕ)
        → size_at C q b ≡ 0
        → Rests q F E (b ∷ H)
        → let (done, f, E', F') = if q.elements == 0 then (false, b, E, F) else trade b E F in
          let (rc, out, q') = push_empty_and_try_pop_full C b q in
          (rc ≡ done) × (out ≡ f) × Rests q' F' E' (f ∷ H)
    unfolding push_empty_and_try_pop_full
    push_empty_and_try_pop_full-Rests [] bare r = elim (Bool-cases (q.elements == 0)) [
      | inl guard ↦ rw guard (refl, refl, r)
      | inr more ↦ rw (more, r.free, r.inv.chain_full) (refl, refl, unlatch (latch-Inv true r.inv))
    ]
    push_empty_and_try_pop_full-Rests (f ∷ F) bare r = elim (Bool-cases (q.elements == 0)) [
      | inl guard ↦ rw guard (refl, refl, r)
      | inr more ↦
          rw (more, r.free, r.inv.chain_full.0)
            (
              refl,
              refl,
              unlatch (unlink_full-Inv C f (link_empty-Inv C b bare (latch-Inv true r.inv))),
            )
    ]
