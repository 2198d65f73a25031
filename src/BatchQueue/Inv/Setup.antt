-- ===== src/BatchQueue/Inv/Setup.antt =====
-- The constructor: every batch is new and on the empty list.
use rdma_synchronization.Common.{
  count, ℕ, zero, suc, ◌+◌, ◌^◌, ◌<◌, ◌≡◌, refl, false, List, [], ◌∷◌, ltb, leb, if◌then◌else◌,
  ◌&&◌, arith, length, ap,
}
use rdma_synchronization.Common.Options.{Returns}
use rdma_synchronization.Container.Interface.{Container}
use rdma_synchronization.BatchQueue.{
  BatchQueue, size_at, link_empty, try_push_empty, push_empties, initial, new_queue,
}
use rdma_synchronization.BatchQueue.Inv.Links.{link_empty-Inv}
use rdma_synchronization.BatchQueue.Inv.Ops.{Rests, latch-Inv, unlatch}

-- The indices `b`, `b + 1`, … of `n` batches.
abbrev pub range : ℕ → ℕ → List ℕ
range zero b = []
range (suc n) b = b ∷ range n (b + 1)

length-range : (n b : ℕ) → length (range n b) ≡ n
length-range zero b = refl
length-range (suc n) b = ap suc (length-range n (b + 1))

count-range : (n b a : ℕ) → count a (range n b) ≡ (if leb b a && ltb a (b + n) then 1 else 0)
count-range zero b a = ground arith
count-range (suc n) b a = ground (arith, count-range n (b + 1) a)

module _ {A : Type 0} (C : Container A) where
  abbrev pushed : BatchQueue C → ℕ → BatchQueue C
  pushed q b = record (link_empty C b q) { latch = false }

  push_empties-suc :
      {q : BatchQueue C} {E H : List ℕ} (n b : ℕ)
      → Rests C q [] E H
      → push_empties C (suc n) b q ≡ push_empties C n (b + 1) (pushed q b)
  unfolding push_empties try_push_empty
  push_empties-suc n b r = rw r.free

  push_empties-Rests :
      (n b : ℕ) {q : BatchQueue C} {E : List ℕ}
      → ((a : ℕ) → size_at C q a ≡ 0)
      → Rests C q [] E (range n b)
      → Returns
          (push_empties C n b q)
          (λ q'. (E' : List ℕ) × Rests C q' [] E' [] × (q'.size ≡ q.size))
  unfolding push_empties
  push_empties-Rests zero b {q} {E} bare r = (E, r, refl)
  push_empties-Rests (suc n) b {q} bare r = rw (push_empties-suc n b r) (
      push_empties-Rests n (b + 1) {q = pushed q b} (λ a. ground (arith, bare a, bare b))
        (unlatch C (link_empty-Inv C b (bare b) (latch-Inv C false r.inv))))

  -- Before the constructor's loop, all batches are in hand.
  pub initial-Rests : (size : ℕ) → size < 2 ^ 64 → Rests C (initial C size) [] [] (range size 0)
  initial-Rests size small = record {
    inv = record {
      chain_full = refl;
      chain_empty = refl;
      full_size = refl;
      empty_size = refl;
      counted = refl;
      clean = tt;
      valid = λ b. C.new_lem.0;
      once = λ a. ground (arith, count-range size 0 a);
      number = omega (arith, length-range size 0);
      small = small;
    };
    free = refl;
  }

  -- The constructor returns, with as many batches as its argument says, every one on the empty list.
  pub new_queue-Rests :
      (size : ℕ)
      → size < 2 ^ 64
      → Returns (new_queue C size) (λ q. (E : List ℕ) × Rests C q [] E [] × (q.size ≡ size))
  unfolding new_queue
  new_queue-Rests size small = push_empties-Rests size 0 bare (initial-Rests size small)
    where
      bare : (a : ℕ) → C.get_size C.new ≡ 0
      bare a = ground (arith, C.get_size_lem C.new C.new_lem.0, C.new_lem.1)
