-- ===== src/BatchQueue/Chain.antt =====
-- Linked lists of batches, and what a write to a batch outside a list leaves of it.
use rdma_synchronization.Common.{
  count, ℕ, ◌+◌, ◌≡◌, refl, Option, none, some, List, [], ◌∷◌, arith, All, update,
}
use rdma_synchronization.Container.Interface.{Container}
use rdma_synchronization.BatchQueue.{Batch}

module _ {A : Type 0} (C : Container A) where
  -- The list that starts at the pointer `p` and follows `next`.
  abbrev pub Chain : (ℕ → Batch C) → Option ℕ → List ℕ → Type 0
  Chain h p [] = p ≡ none
  Chain h p (b ∷ l) = (p ≡ some b) × Chain h (h b).next l

  -- The number of elements in the batches of a list.
  abbrev pub total : (ℕ → Batch C) → List ℕ → ℕ
  total h [] = 0
  total h (b ∷ l) = C.get_size (h b).container + total h l

  abbrev pub AllClean : (ℕ → Batch C) → List ℕ → Type 0
  AllClean h = All (λ b. C.get_size (h b).container ≡ 0)

  module _ (h : ℕ → Batch C) (a : ℕ) (x : Batch C) where
    pub Chain-update :
        (p : Option ℕ) (l : List ℕ) → count a l ≡ 0 → Chain h p l → Chain (update h a x) p l
    Chain-update p [] e c = c
    Chain-update p (b ∷ l) e c = ground (arith, Chain-update (h b).next l)

    pub total-update : (l : List ℕ) → count a l ≡ 0 → total (update h a x) l ≡ total h l
    total-update [] e = refl
    total-update (b ∷ l) e = ground (arith, total-update l)

    pub AllClean-update : (l : List ℕ) → count a l ≡ 0 → AllClean h l → AllClean (update h a x) l
    AllClean-update [] e c = c
    AllClean-update (b ∷ l) e c = ground (arith, AllClean-update l)
