-- ===== src/BatchQueue/Inv/Duplicates.antt =====
-- `assert_no_duplicates`: the histogram of the two lists, against the invariant.
use rdma_synchronization.Common.{
  count, ℕ, zero, suc, ◌+◌, ◌^◌, ◌<◌, ◌≤◌, ◌≡◌, refl, ◌∙◌, true, false, Option, some, List, [], ◌∷◌,
  ltb, ◌==◌, if◌then◌else◌, arith, length, set, get_or, replicate, length-set, get_or-set_self,
  get_or-set_ne, length-replicate, ℕ_discrete,
}
use rdma_synchronization.Common.Options.{Returns, Returns-map, Returns-result}
use rdma_synchronization.Common.Word.{add_u64}
use rdma_synchronization.Container.Interface.{Container}
use rdma_synchronization.BatchQueue.{
  BatchQueue, bump, count_fulls, check_empties, assert_no_duplicates,
}
use rdma_synchronization.BatchQueue.Chain.{Chain}
use rdma_synchronization.BatchQueue.Inv.Links.{Inv}

get_or-replicate : (n i : ℕ) → let the_zero : ℕ = 0 in get_or (replicate n 0) i 0 ≡ the_zero
get_or-replicate zero i = refl
get_or-replicate (suc n) zero = refl
get_or-replicate (suc n) (suc i) = get_or-replicate n i

-- The histogram after one batch more.
abbrev bumped : List ℕ → ℕ → List ℕ
bumped h b = set h b (add_u64 (get_or h b 0) 1)

get_or-bumped :
    (h : List ℕ) (b a : ℕ)
    → b < length h
    → get_or h b 0 + 1 < 2 ^ 64
    → get_or (bumped h b) a 0 ≡ get_or h a 0 + (if a == b then 1 else 0)
get_or-bumped h b a lt small = elim (ℕ_discrete b a) [
  | yes e ↦ ground (arith, get_or-set_self h b (add_u64 (get_or h b 0) 1) 0 lt)
  | no ne ↦ ground (arith, get_or-set_ne h b a (add_u64 (get_or h b 0) 1) 0 ne)
]

bump-lt : (h : List ℕ) (b : ℕ) → b < length h → bump h b ≡ some (bumped h b)
unfolding bump
bump-lt h b lt = ground arith

module _ {A : Type 0} (C : Container A) (q : BatchQueue C) where
  count_fulls_lem :
      (l : List ℕ) (fuel : ℕ) (p : Option ℕ) (h : List ℕ)
      → length l ≤ fuel
      → Chain C q.batches p l
      → ((a : ℕ) → 0 < count a l → a < length h)
      → ((a : ℕ) → get_or h a 0 + count a l < 2 ^ 64)
      → Returns
          (count_fulls C fuel q p h)
          (λ h'. (length h' ≡ length h) × ((a : ℕ) → get_or h' a 0 ≡ get_or h a 0 + count a l))
  unfolding count_fulls
  count_fulls_lem [] fuel p h le c inside small = rw c (refl, λ a. omega arith)
  count_fulls_lem (b ∷ l) zero p h le c inside small = absurd (omega arith)
  count_fulls_lem (b ∷ l) (suc fuel) p h le c inside small =
      let lt : b < length h = inside b (ground arith) in
      let small_b : get_or h b 0 + 1 < 2 ^ 64 = ground (arith, small b) in
      let kept = length-set h b (add_u64 (get_or h b 0) 1) in
      rw (c.0, bump-lt h b lt)
        (Returns-map _
          {P = λ h'.
            (length h' ≡ length (bumped h b))
            × ((a : ℕ) → get_or h' a 0 ≡ get_or (bumped h b) a 0 + count a l)}
          (count_fulls_lem l fuel _ (bumped h b) (omega arith) c.1
            (λ a. ground (arith, inside a, kept))
            (λ a. ground (arith, small a, get_or-bumped h b a lt small_b)))
          (λ h' (e, f). (e ∙ kept, λ a. ground (arith, f a, get_or-bumped h b a lt small_b))))

  counted_fulls :
      {F E H : List ℕ}
      → Inv C q F E H
      → Returns
          (count_fulls C q.size q q.full.head (replicate q.size 0))
          (λ h. (length h ≡ q.size) × ((a : ℕ) → get_or h a 0 ≡ count a F))
  counted_fulls {F} v =
      Returns-map (count_fulls C q.size q q.full.head (replicate q.size 0))
        {P = λ h'.
          (length h' ≡ length (replicate q.size 0))
          × ((a : ℕ) → get_or h' a 0 ≡ get_or (replicate q.size 0) a 0 + count a F)}
        (count_fulls_lem F q.size q.full.head (replicate q.size 0) (omega (arith, v.number))
          v.chain_full (λ a. ground (arith, v.once a, length-replicate {A = ℕ} q.size 0))
          (λ a. ground (arith, v.once a, get_or-replicate q.size a)))
        (λ h' r. (
          r.0 ∙ length-replicate {A = ℕ} q.size 0,
          λ a. ground (arith, r.1 a, get_or-replicate q.size a),
        ))

  check_empties_lem :
      (l : List ℕ) (fuel : ℕ) (p : Option ℕ) (h : List ℕ)
      → length l ≤ fuel
      → Chain C q.batches p l
      → ((a : ℕ) → 0 < count a l → a < length h)
      → ((a : ℕ) → get_or h a 0 + count a l ≤ 1)
      → check_empties C fuel q p h ≡ some true
  unfolding check_empties
  check_empties_lem [] fuel p h le c inside once = rw c
  check_empties_lem (b ∷ l) zero p h le c inside once = absurd (omega arith)
  check_empties_lem (b ∷ l) (suc fuel) p h le c inside once =
      let lt : b < length h = inside b (ground arith) in
      let once_b : get_or h b 0 ≤ 0 = ground (arith, once b) in
      let new : ltb 1 (get_or (bumped h b) b 0) ≡ false = ground (arith, get_or-bumped h b b lt) in
      let rest =
        check_empties_lem l fuel _ (bumped h b) (omega arith) c.1
          (λ a. ground (arith, inside a, length-set h b (add_u64 (get_or h b 0) 1)))
          (λ a. ground (arith, once a, get_or-bumped h b a lt)) in
      rw (c.0) (ground (arith, bump-lt h b lt, new, rest))

  -- Under the invariant no batch is found twice, in one list or in both.
  pub assert_no_duplicates_lem :
      {F E H : List ℕ} → Inv C q F E H → assert_no_duplicates C q ≡ some true
  unfolding assert_no_duplicates
  assert_no_duplicates_lem {F} {E} v =
      let (h, e, sound) =
        Returns-result (count_fulls C q.size q q.full.head (replicate q.size 0))
          (counted_fulls v) in
      rw e (
        check_empties_lem E q.size q.empty.head h (omega (arith, v.number)) v.chain_empty
          (λ a. ground (arith, v.once a, sound.0)) (λ a. ground (arith, v.once a, sound.1 a)))
