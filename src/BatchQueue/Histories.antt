-- ===== src/BatchQueue/Histories.antt =====
-- Threads that share one `BatchQueue` of backend/nam/utils/BatchQueue.hpp: any sequence of calls, each
-- under the latch, by owners of the batches that they pass in.
use rdma_synchronization.Common.{
  count, ℕ, ◌+◌, ◌^◌, ◌<◌, ◌≡◌, Bool, true, Option, some, List, [], ◌∷◌, ltb, ◌==◌, ◌&&◌,
  if◌then◌else◌, arith, length, update, Bool-cases, inl, inr,
}
use rdma_synchronization.Common.Options.{Returns, Returns-result, ◌>>=◌}
use rdma_synchronization.Container.Interface.{Container, pop_front}
use rdma_synchronization.BatchQueue.{
  BatchQueue, size_at, new_queue, try_push_full, try_push_empty, try_pop_empty, try_pop_full,
  push_full_and_try_pop_empty, push_empty_and_try_pop_full,
}
use rdma_synchronization.BatchQueue.Inv.Links.{refill-Inv}
use rdma_synchronization.BatchQueue.Inv.Ops.{
  own, Rests, try_push_full-Rests, try_push_empty-Rests, try_pop_empty-Rests, try_pop_full-Rests,
  push_full_and_try_pop_empty-Rests, push_empty_and_try_pop_full-Rests,
}
use rdma_synchronization.BatchQueue.Inv.Setup.{new_queue-Rests}

-- What is left in hand when batch `b` goes.
abbrev pub give : ℕ → List ℕ → List ℕ
give b [] = []
give b (a ∷ l) = if b == a then l else a ∷ give b l

count-give :
    (b a : ℕ) (l : List ℕ)
    → 0 < count b l
    → count a (give b l) + (if a == b then 1 else 0) ≡ count a l
count-give b a [] lt = absurd (omega arith)
count-give b a (c ∷ l) lt = ground (arith, count-give b a l)

length-give : (b : ℕ) (l : List ℕ) → 0 < count b l → length (give b l) + 1 ≡ length l
length-give b [] lt = absurd (omega arith)
length-give b (c ∷ l) lt = ground (arith, length-give b l)

-- A call on the queue, or a use of a batch in hand: an element goes in, or it is cleaned.
pub data Call (A : Type 0) : Type 0 where
  push_full : ℕ → Call A
  push_empty : ℕ → Call A
  pop_full : Call A
  pop_empty : Call A
  swap_full : ℕ → Call A
  swap_empty : ℕ → Call A
  fill : ℕ → A → Call A
  clean : ℕ → Call A

module _ {A : Type 0} (C : Container A) where
  -- The queue, and the batches that the threads have in hand.
  pub record Shared : Type 0 where
    pub queue : BatchQueue C
    pub held : List ℕ

  -- A thread passes in a batch that it has in hand, and as an empty one only a batch with no
  -- element, which the source asserts.
  unfoldable pub allowed : Call A → Shared → Bool
  allowed (push_full b) s = ltb 0 (count b s.held)
  allowed (push_empty b) s = ltb 0 (count b s.held) && (size_at C s.queue b == 0)
  allowed pop_full s = true
  allowed pop_empty s = true
  allowed (swap_full b) s = ltb 0 (count b s.held)
  allowed (swap_empty b) s = ltb 0 (count b s.held) && (size_at C s.queue b == 0)
  allowed (fill b e) s = ltb 0 (count b s.held)
  allowed (clean b) s = ltb 0 (count b s.held)

  abbrev refill : ℕ → C.State → BatchQueue C → BatchQueue C
  refill b c q = record q { batches = update q.batches b (record (q.batches b) { container = c }) }

  unfoldable pub perform : Call A → Shared → Option Shared
  perform (push_full b) s = do
    (done, q) ← try_push_full C b s.queue
    some (record { queue = q; held = give b s.held })
  perform (push_empty b) s = do
    (done, q) ← try_push_empty C b s.queue
    some (record { queue = q; held = give b s.held })
  perform pop_full s =
      let (out, q) = try_pop_full C s.queue in some (record { queue = q; held = own out s.held })
  perform pop_empty s = do
    (out, q) ← try_pop_empty C s.queue
    some (record { queue = q; held = own out s.held })
  perform (swap_full b) s = do
    (done, out, q) ← push_full_and_try_pop_empty C b s.queue
    some (record { queue = q; held = out ∷ give b s.held })
  perform (swap_empty b) s =
      let (done, out, q) = push_empty_and_try_pop_full C b s.queue in
      some (record { queue = q; held = out ∷ give b s.held })
  perform (fill b e) s =
      let (done, c) = C.try_push e (s.queue.batches b).container in
      some (record s { queue = refill b c s.queue })
  perform (clean b) s =
      some (record s { queue = refill b (C.reset (s.queue.batches b).container) s.queue })

  -- A history: a call that is not allowed is not made.
  unfoldable pub run : List (Call A) → Shared → Option Shared
  run [] s = some s
  run (c ∷ cs) s = (if allowed c s then perform c s else some s) >>= run cs

  pub Sound : Shared → Type 0
  Sound s = (F : List ℕ) × (E : List ℕ) × Rests C s.queue F E s.held

  module _ {q : BatchQueue C} {H : List ℕ} where
    reorder :
        {F E : List ℕ} (H' : List ℕ)
        → ((a : ℕ) → count a H' ≡ count a H)
        → length H' ≡ length H
        → Rests C q F E H
        → Rests C q F E H'
    reorder H' e l r = record {
      inv = record {
        chain_full = r.inv.chain_full;
        chain_empty = r.inv.chain_empty;
        full_size = r.inv.full_size;
        empty_size = r.inv.empty_size;
        counted = r.inv.counted;
        clean = r.inv.clean;
        valid = r.inv.valid;
        once = λ b. omega (arith, r.inv.once b, e b);
        number = omega (arith, r.inv.number);
        small = r.inv.small;
      };
      free = r.free;
    }

    module _ {F E : List ℕ} (b : ℕ) (has : 0 < count b H) where
      to_front : Rests C q F E H → Rests C q F E (b ∷ give b H)
      to_front =
          reorder (b ∷ give b H) (λ a. omega (arith, count-give b a H has))
            (omega (arith, length-give b H has))

  module _ {H : List ℕ} (b : ℕ) (has : 0 < count b H) where
    from_front : {q : BatchQueue C} {F E : List ℕ} → Rests C q F E (b ∷ give b H) → Rests C q F E H
    from_front =
        reorder H (λ a. omega (arith, count-give b a H has)) (omega (arith, length-give b H has))

    refill-Sound :
        {q : BatchQueue C} {F E : List ℕ} {c : C.State}
        → C.IsValid c
        → Rests C q F E H
        → Rests C (refill b c q) F E H
    refill-Sound good r =
        let r' = to_front b has r in
        from_front (record { inv = refill-Inv C b good r'.inv; free = r.free })

  abbrev shared : BatchQueue C → List ℕ → Shared
  shared q H = record { queue = q; held = H }

  module _ {q : BatchQueue C} {F H : List ℕ} where
    pop_empty-Sound :
        (E : List ℕ) → Rests C q F E H → Returns (perform pop_empty (shared q H)) Sound
    unfolding perform Sound pop_front
    pop_empty-Sound [] r =
        let ((out, q'), e, done) =
          Returns-result (try_pop_empty C q) (try_pop_empty-Rests C [] r) in
        rw (e, done.0) (F, [], done.1)
    pop_empty-Sound (b ∷ E) r =
        let ((out, q'), e, done) =
          Returns-result (try_pop_empty C q) (try_pop_empty-Rests C (b ∷ E) r) in
        rw (e, done.0) (F, E, done.1)

  module _ {q : BatchQueue C} {F E H : List ℕ} where
    perform-Sound :
        (c : Call A)
        → allowed c (shared q H) ≡ true
        → Rests C q F E H
        → Returns (perform c (shared q H)) Sound
    unfolding allowed perform Sound
    perform-Sound (push_full b) ok r =
        let (out, e, done) =
          Returns-result (try_push_full C b q)
            (try_push_full-Rests C b (to_front b (ground (arith, ok)) r)) in
        rw e (b ∷ F, E, done.1)
    perform-Sound (push_empty b) ok r =
        let (out, e, done) =
          Returns-result (try_push_empty C b q)
            (try_push_empty-Rests C b (ground (arith, ok)) (to_front b (ground (arith, ok)) r)) in
        rw e (F, b ∷ E, done.1)
    perform-Sound pop_full ok r = let t = try_pop_full-Rests C F r in rw (t.0) (_, E, t.1)
    perform-Sound pop_empty ok r = pop_empty-Sound E r
    perform-Sound (swap_full b) ok r =
        let (out, e, done) =
          Returns-result (push_full_and_try_pop_empty C b q)
            (push_full_and_try_pop_empty-Rests C b E (to_front b (ground (arith, ok)) r)) in
        rw (e, done.1) (_, _, done.2)
    perform-Sound (swap_empty b) ok r =
        let t =
          push_empty_and_try_pop_full-Rests C b F (ground (arith, ok))
            (to_front b (ground (arith, ok)) r) in
        rw (t.1) (_, _, t.2)
    perform-Sound (fill b x) ok r =
        (F, E, refill-Sound b (ground (arith, ok)) (C.try_push_lem x _ (r.inv.valid b)).0 r)
    perform-Sound (clean b) ok r =
        (F, E, refill-Sound b (ground (arith, ok)) (C.reset_lem _ (r.inv.valid b)).0 r)

  run-Sound : (cs : List (Call A)) (s : Shared) → Sound s → Returns (run cs s) Sound
  unfolding run Sound
  run-Sound [] s v = v
  run-Sound (c ∷ cs) s (F, E, r) = elim (Bool-cases (allowed c s)) [
    | inl ok ↦
        let (s', e, v') = Returns-result (perform c s) (perform-Sound c ok r) in
        rw (ok, e) (run-Sound cs s' v')
    | inr refused ↦ rw refused (run-Sound cs s (F, E, r))
  ]

  -- The constructor and after it any calls on the queue and on the batches in hand, in any order, by
  -- threads that pass in batches of their own, as empty ones only batches with no element: all of
  -- them return, the latch is free, and every batch is in one place, on the full list, on the empty
  -- list with no element, or in one hand.
  pub histories-Sound :
      (size : ℕ) (cs : List (Call A))
      → size < 2 ^ 64
      → Returns (new_queue C size >>= λ q. run cs (shared q [])) Sound
  unfolding Sound
  histories-Sound size cs small =
      let (q, e, (E, r, _)) = Returns-result (new_queue C size) (new_queue-Rests C size small) in
      rw e (run-Sound cs (shared q []) ([], E, r))
