-- ===== src/BatchQueue/Inv/Links.antt =====
-- The invariant, and the four pointer updates that the operations are made of.
use rdma_synchronization.Common.{
  count, ℕ, ◌+◌, ◌%◌, ◌^◌, ◌<◌, ◌≡◌, List, ◌∷◌, ltb, if◌then◌else◌, arith, length, update,
}
use rdma_synchronization.Container.Interface.{Container}
use rdma_synchronization.BatchQueue.{
  Batch, BatchQueue, size_at, increment_elements, decrement_elements, link_full, link_empty,
  unlink_full, unlink_empty,
}
use rdma_synchronization.BatchQueue.Chain.{
  Chain, total, AllClean, Chain-update, total-update, AllClean-update,
}

module _ {A : Type 0} (C : Container A) where
  -- `fulls` and `empties` are the two lists, head first, and `held` the batches that threads own.
  pub record Inv (q : BatchQueue C) (fulls empties held : List ℕ) : Type 0 where
    pub chain_full : Chain C q.batches q.full.head fulls
    pub chain_empty : Chain C q.batches q.empty.head empties
    pub full_size : q.full.size ≡ length fulls
    pub empty_size : q.empty.size ≡ length empties
    pub counted : q.elements ≡ total C q.batches fulls % 2 ^ 64
    pub clean : AllClean C q.batches empties
    pub valid : (b : ℕ) → C.IsValid (q.batches b).container
    -- Every batch is in one place: nothing is lost, shared or made up.
    pub once :
        (b : ℕ) → count b fulls + count b empties + count b held ≡ (if ltb b q.size then 1 else 0)
    pub number : length fulls + length empties + length held ≡ q.size
    pub small : q.size < 2 ^ 64

  module _ {q : BatchQueue C} {F E H : List ℕ} (b : ℕ) where
    pub alone : Inv q F E (b ∷ H) → (count b F ≡ 0) × (count b E ≡ 0)
    alone v = ground (arith, v.once b)

    fits : Inv q F E (b ∷ H) → (length F + 1 < 2 ^ 64) × (length E + 1 < 2 ^ 64)
    fits v = omega (arith, v.number, v.small)

    pub link_full-Inv : Inv q F E (b ∷ H) → Inv (link_full C b q) (b ∷ F) E H
    unfolding increment_elements
    link_full-Inv v = record {
      chain_full =
          ground (arith, Chain-update C q.batches b x q.full.head F (alone v).0 v.chain_full);
      chain_empty = Chain-update C q.batches b x q.empty.head E (alone v).1 v.chain_empty;
      full_size = omega (arith, v.full_size, fits v);
      empty_size = v.empty_size;
      counted = ground (arith, v.counted, total-update C q.batches b x F (alone v).0);
      clean = AllClean-update C q.batches b x E (alone v).1 v.clean;
      valid = λ a. ground (arith, v.valid a, v.valid b);
      once = λ a. omega (arith, v.once a);
      number = omega (arith, v.number);
      small = v.small;
    }
      where
        x : Batch C
        x = record (q.batches b) { next = q.full.head }

    pub link_empty-Inv : size_at C q b ≡ 0 → Inv q F E (b ∷ H) → Inv (link_empty C b q) F (b ∷ E) H
    link_empty-Inv bare v = record {
      chain_full = Chain-update C q.batches b x q.full.head F (alone v).0 v.chain_full;
      chain_empty =
          ground (arith, Chain-update C q.batches b x q.empty.head E (alone v).1 v.chain_empty);
      full_size = v.full_size;
      empty_size = omega (arith, v.empty_size, fits v);
      counted = ground (arith, v.counted, total-update C q.batches b x F (alone v).0);
      clean = ground (arith, bare, AllClean-update C q.batches b x E (alone v).1 v.clean);
      valid = λ a. ground (arith, v.valid a, v.valid b);
      once = λ a. omega (arith, v.once a);
      number = omega (arith, v.number);
      small = v.small;
    }
      where
        x : Batch C
        x = record (q.batches b) { next = q.empty.head }

    pub unlink_full-Inv : Inv q (b ∷ F) E H → Inv (unlink_full C b q) F E (b ∷ H)
    unfolding decrement_elements
    unlink_full-Inv v = record {
      chain_full = v.chain_full.1;
      chain_empty = v.chain_empty;
      full_size = omega (arith, v.full_size, v.number, v.small);
      empty_size = v.empty_size;
      counted = omega (arith, v.counted, C.get_size_fits (q.batches b).container (v.valid b));
      clean = v.clean;
      valid = v.valid;
      once = λ a. omega (arith, v.once a);
      number = omega (arith, v.number);
      small = v.small;
    }

    pub unlink_empty-Inv : Inv q F (b ∷ E) H → Inv (unlink_empty C b q) F E (b ∷ H)
    unlink_empty-Inv v = record {
      chain_full = v.chain_full;
      chain_empty = v.chain_empty.1;
      full_size = v.full_size;
      empty_size = omega (arith, v.empty_size, v.number, v.small);
      counted = v.counted;
      clean = v.clean.1;
      valid = v.valid;
      once = λ a. omega (arith, v.once a);
      number = omega (arith, v.number);
      small = v.small;
    }

    -- A thread that owns a batch changes its container: filling it, or cleaning it.
    pub refill-Inv :
        {c : C.State}
        → C.IsValid c
        → Inv q F E (b ∷ H)
        → Inv
            (record q { batches = update q.batches b (record (q.batches b) { container = c }) })
            F
            E
            (b ∷ H)
    refill-Inv {c} good v = record {
      chain_full = Chain-update C q.batches b x q.full.head F (alone v).0 v.chain_full;
      chain_empty = Chain-update C q.batches b x q.empty.head E (alone v).1 v.chain_empty;
      full_size = v.full_size;
      empty_size = v.empty_size;
      counted = ground (arith, v.counted, total-update C q.batches b x F (alone v).0);
      clean = AllClean-update C q.batches b x E (alone v).1 v.clean;
      valid = λ a. ground (arith, v.valid a, good);
      once = v.once;
      number = v.number;
      small = v.small;
    }
      where
        x : Batch C
        x = record (q.batches b) { container = c }
