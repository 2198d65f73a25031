-- ===== src/Common/Sums.antt =====
-- Sums over a list of clients or threads, and how a change of one of them changes the sum.
use Prim.Native.Nat.{ℕ, zero, suc, ◌+◌, ◌≤◌, ◌<◌}
use mathlib.Core.Path.{◌≡◌, refl, ap}
use mathlib.Core.Logic.{◌≢◌}
use mathlib.Core.List.{List, [], ◌∷◌}
use native.Mathlib.Decide.{ℕ_discrete}
use native.Mathlib.Omega.{arith}
use rdma_synchronization.Common.Lists.{length, get_or, set, replicate}

module _ {ℓ} {A : Type ℓ} where
  abbrev pub sum : (A → ℕ) → List A → ℕ
  sum f [] = 0
  sum f (x ∷ xs) = f x + sum f xs

  pub sum-bound : (f : A → ℕ) (xs : List A) → ((x : A) → f x ≤ 1) → sum f xs ≤ length xs
  sum-bound f [] h = omega arith
  sum-bound f (x ∷ xs) h = omega (arith, h x, sum-bound f xs h)

  pub sum-add : (f g : A → ℕ) (xs : List A) → sum (λ x. f x + g x) xs ≡ sum f xs + sum g xs
  sum-add f g [] = refl
  sum-add f g (x ∷ xs) = omega (arith, sum-add f g xs)

  pub sum-replicate : (f : A → ℕ) (n : ℕ) (x : A) → f x ≡ 0 → sum f (replicate n x) ≡ 0
  sum-replicate f zero x e = refl
  sum-replicate f (suc n) x e = omega (arith, e, sum-replicate f n x e)

  pub get_or-replicate : (n i : ℕ) (x : A) → get_or (replicate n x) i x ≡ x
  get_or-replicate zero i x = refl
  get_or-replicate (suc n) zero x = refl
  get_or-replicate (suc n) (suc i) x = get_or-replicate n i x

  module _ (d : A) where
    pub sum-set :
        (f : A → ℕ) (xs : List A) (i : ℕ) (x : A)
        → i < length xs
        → sum f (set xs i x) + f (get_or xs i d) ≡ sum f xs + f x
    sum-set f [] i x h = absurd (omega arith)
    sum-set f (y ∷ xs) zero x h = omega arith
    sum-set f (y ∷ xs) (suc i) x h = omega (arith, sum-set f xs i x (omega arith))

    pub member : (f : A → ℕ) (xs : List A) (i : ℕ) → i < length xs → f (get_or xs i d) ≤ sum f xs
    member f [] i h = absurd (omega arith)
    member f (y ∷ xs) zero h = omega arith
    member f (y ∷ xs) (suc i) h = omega (arith, member f xs i (omega arith))

    pub two_members :
        (f : A → ℕ) (xs : List A) (i j : ℕ)
        → i < length xs
        → j < length xs
        → i ≢ j
        → f (get_or xs i d) + f (get_or xs j d) ≤ sum f xs
    two_members f [] i j h k ne = absurd (omega arith)
    two_members f (y ∷ xs) zero zero h k ne = absurd (ne refl)
    two_members f (y ∷ xs) zero (suc j) h k ne = omega (arith, member f xs j (omega arith))
    two_members f (y ∷ xs) (suc i) zero h k ne = omega (arith, member f xs i (omega arith))
    two_members f (y ∷ xs) (suc i) (suc j) h k ne =
        omega (arith, two_members f xs i j (omega arith) (omega arith) (λ e. ne (ap suc e)))

    pub sum-zero :
        (f : A → ℕ) (xs : List A) → ((i : ℕ) → i < length xs → f (get_or xs i d) ≡ 0) → sum f xs ≡ 0
    sum-zero f [] h = refl
    sum-zero f (x ∷ xs) h =
        omega (arith, h 0 (omega arith), sum-zero f xs (λ i lt. h (suc i) (omega arith)))

    -- Where every number is at most 1 and the sum is as large as can be, each number is 1.
    pub sum-full :
        (f : A → ℕ) (xs : List A) (i : ℕ)
        → ((x : A) → f x ≤ 1)
        → i < length xs
        → length xs ≤ sum f xs
        → f (get_or xs i d) ≡ 1
    sum-full f [] i le h full = absurd (omega arith)
    sum-full f (x ∷ xs) zero le h full = omega (arith, le x, sum-bound f xs le)
    sum-full f (x ∷ xs) (suc i) le h full =
        sum-full f xs i le (omega arith) (omega (arith, le x, sum-bound f xs le))

    -- A sum below the length leaves a number that is 0.
    pub sum-short :
        (f : A → ℕ) (xs : List A)
        → sum f xs < length xs
        → (i : ℕ) × (i < length xs) × (f (get_or xs i d) ≡ 0)
    sum-short f [] h = absurd (omega arith)
    sum-short f (x ∷ xs) h = elim (ℕ_discrete (f x) 0) [
      | yes e ↦ (0, omega arith, e)
      | no ne ↦ let (i, lt, e) = sum-short f xs (omega arith) in (suc i, omega arith, e)
    ]
