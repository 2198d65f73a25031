-- ===== src/Parallelize/Partition.antt =====
-- The blocks of `parallelRange` put one behind the other are the range.
use rdma_synchronization.Common.{
  ℕ, zero, suc, ◌+◌, ◌-◌, ◌*◌, ◌/◌, ◌<◌, ◌≤◌, ◌≡◌, ◌≢◌, refl, ap, sym, ◌∙◌, some, List, [], ◌∷◌,
  ◌++◌, arith, eq→==, ne→==,
}
use rdma_synchronization.Parallelize.{block, workers, parallel_range}
use mathlib.Core.List.{append-nil}
use native.Mathlib.Nat.{div-mul-le_self, suc-mul, add-mul, le-div_iff_mul-le}

-- The indices that a loop `for (i = b; i < e; i++)` goes through, `count` of them from `b` on.
abbrev pub indices : ℕ → ℕ → List ℕ
indices b zero = []
indices b (suc count) = b ∷ indices (b + 1) count

-- What the workers go through, one worker after the other.
abbrev pub all_indices : List (ℕ × ℕ) → List ℕ
all_indices [] = []
all_indices ((b, e) ∷ blocks) = indices b (e - b) ++ all_indices blocks

indices-add : (b m k : ℕ) → indices b (m + k) ≡ indices b m ++ indices (b + m) k
indices-add b zero k = ap (indices b) zero_add ∙ ap (λ t. indices t k) add_zero
  where
    zero_add : 0 + k ≡ k
    zero_add = omega arith

    add_zero : b ≡ b + 0
    add_zero = omega arith
indices-add b (suc m) k =
    ap (indices b) first
    ∙ ap (λ l. b ∷ l) (indices-add (b + 1) m k ∙ ap (λ t. indices (b + 1) m ++ indices t k) next)
  where
    first : suc m + k ≡ suc (m + k)
    first = omega arith

    next : b + 1 + m ≡ b + suc m
    next = omega arith

module _ (threads n : ℕ) (pos : 0 < threads) where
  abbrev size : ℕ
  size = n / threads

  -- The blocks up to worker `w` end before `n`.
  inside : (w count : ℕ) → w + count ≡ threads → w * size ≤ n
  inside w count e = omega (
    arith,
    div-mul-le_self n threads,
    add-mul w count size,
    ap (λ t. size * t) e,
    ap (λ t. t * size) e,
  )

  all_indices-workers :
      (count w : ℕ)
      → w + suc count ≡ threads
      → all_indices (workers threads n (suc count) w) ≡ indices (w * size) (n - w * size)
  unfolding workers block
  all_indices-workers zero w e =
      rw (eq→== w (threads - 1) (omega arith)) (append-nil (indices (w * size) (n - w * size)))
  all_indices-workers (suc count) w e = rw (ne→== w (threads - 1) (omega arith)) (
      ap (λ l. indices (w * size) (w * size + size - w * size) ++ l)
        (all_indices-workers count (w + 1) (omega arith))
      ∙ ap (λ t. indices (w * size) (w * size + size - w * size) ++ indices t (n - (w + 1) * size))
          reach
      ∙ sym (indices-add (w * size) (w * size + size - w * size) (n - (w + 1) * size))
      ∙ ap (indices (w * size)) rest)
    where
      next : w + 1 ≡ suc w
      next = omega arith

      reach : (w + 1) * size ≡ w * size + (w * size + size - w * size)
      reach = omega (arith, suc-mul w size, ap (λ t. t * size) next)

      rest : w * size + size - w * size + (n - (w + 1) * size) ≡ n - w * size
      rest = omega (arith, reach, inside (w + 1) (suc count) (omega arith))

-- With at least as many elements as workers, the workers of `parallelRange`, one after the other,
-- go through 0, 1, … up to `n`, each once and in order.
pub parallel_range_lem :
    (threads n : ℕ)
    → 0 < threads
    → threads ≤ n
    → (blocks : List (ℕ × ℕ)) × (parallel_range threads n ≡ some blocks)
      × (all_indices blocks ≡ indices 0 n)
unfolding parallel_range
parallel_range_lem zero n pos le = absurd (omega arith)
parallel_range_lem (suc t) n pos le = (
  workers (suc t) n (suc t) 0,
  rw (ne→== (suc t) 0 (omega arith), ne→== (n / suc t) 0 some_each) refl,
  rw (all_indices-workers (suc t) n pos t 0 (omega arith), none_before) (ap (indices 0) whole),
)
  where
    some_each : n / suc t ≢ 0
    some_each e =
        omega (arith, (le-div_iff_mul-le {k = suc t} {x = 1} {y = n} pos).1 (omega arith), e)

    none_before : 0 * (n / suc t) ≡ 0
    none_before = omega arith

    whole : n - 0 ≡ n
    whole = omega arith
