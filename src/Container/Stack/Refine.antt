-- ===== src/Container/Stack/Refine.antt =====
-- The array stack is a bounded list with its top first.
use rdma_synchronization.Common.{
  ℕ, zero, suc, ◌+◌, ◌-◌, ◌≤◌, ◌<◌, ◌^◌, ◌≡◌, ◌≢◌, refl, sym, ap, List, [], ◌∷◌, inl, inr, arith,
  Bool-cases, ◌==◌, length, length-set, get_or, set, get_or-set_self, get_or-set_ne,
  length-replicate,
}
use rdma_synchronization.Container.Interface.{Container, bounded_push, pop_front}
use rdma_synchronization.Container.Stack.{Stack, new_stack, get_size, try_push, try_pop, reset}
use mathlib.Core.Path.{ap₂}

module _ {A : Type 0} (d : A) where
  -- The lowest `m` places of the array, the highest first.
  abbrev pub below : List A → ℕ → List A
  below buf zero = []
  below buf (suc m) = get_or buf m d ∷ below buf m

  length-below : (buf : List A) (m : ℕ) → length (below buf m) ≡ m
  length-below buf zero = refl
  length-below buf (suc m) = ap suc (length-below buf m)

  below-set : (buf : List A) (x : A) (i m : ℕ) → m ≤ i → below (set buf i x) m ≡ below buf m
  below-set buf x i zero h = refl
  below-set buf x i (suc m) h =
      ap₂ ◌∷◌ (get_or-set_ne buf i m x d (omega arith)) (below-set buf x i m (omega arith))

  push-below :
      (buf : List A) (x : A) (m : ℕ)
      → m < length buf
      → below (set buf m x) (m + 1) ≡ x ∷ below buf m
  push-below buf x m h =
      let next : m + 1 ≡ suc m = omega arith in
      rw next (ap₂ ◌∷◌ (get_or-set_self buf m x d h) (below-set buf x m m (omega arith)))

  below_of_ne_zero :
      (buf : List A) (m : ℕ) → m ≢ 0 → below buf m ≡ get_or buf (m - 1) d ∷ below buf (m - 1)
  below_of_ne_zero buf zero h = absurd (h refl)
  below_of_ne_zero buf (suc m) h = ap (λ t. below buf (suc t)) (omega arith)

module _ {A : Type 0} (n : ℕ) (d : A) (small : n < 2 ^ 64) where
  abbrev pub contents : Stack A → List A
  contents s = below d s.buffer s.size

  pub record IsValid (s : Stack A) : Type 0 where
    pub size_le : s.size ≤ n
    pub storage : length s.buffer ≡ n

  pub new_lem : IsValid (new_stack n d) × (contents (new_stack n d) ≡ [])
  unfolding new_stack
  new_lem = (record { size_le = omega arith; storage = length-replicate n d }, refl)

  pub push_lem :
      (e : A) (s : Stack A)
      → IsValid s
      → let (b, s') = try_push n d e s in
        IsValid s' × ((b, contents s') ≡ bounded_push ◌∷◌ n e (contents s))
  unfolding try_push bounded_push
  push_lem e s v = elim (Bool-cases (s.size == n)) [
    | inl filled ↦ ground (arith, length-below d s.buffer s.size)
    | inr room ↦ ground (
      arith,
      length-below d s.buffer s.size,
      length-set s.buffer s.size e,
      push-below d s.buffer e s.size,
    )
  ]

  pub pop_lem :
      (s : Stack A)
      → IsValid s
      → let (e, s') = try_pop n d s in IsValid s' × ((e, contents s') ≡ pop_front (contents s))
  unfolding try_pop pop_front
  pop_lem s v = elim (Bool-cases (s.size == 0)) [
    | inl gone ↦ ground arith
    | inr left ↦ ground (arith, below_of_ne_zero d s.buffer s.size)
  ]

  pub get_size_lem : (s : Stack A) → IsValid s → get_size n d s ≡ length (contents s)
  unfolding get_size
  get_size_lem s v = sym (length-below d s.buffer s.size)

  pub reset_lem : (s : Stack A) → IsValid s → IsValid (reset n d s) × (contents (reset n d s) ≡ [])
  unfolding reset
  reset_lem s v = (record { size_le = omega arith; storage = v.storage }, refl)

  pub get_size_fits : (s : Stack A) → IsValid s → get_size n d s < 2 ^ 64
  unfolding get_size
  get_size_fits s v = omega (arith, v.size_le)

  -- A stack of `n` places is a container for batches, with last-in first-out order.
  abbrev pub stack_container : Container A
  stack_container = record {
    State = Stack A;
    capacity = n;
    new = new_stack n d;
    try_push = try_push n d;
    try_pop = try_pop n d;
    get_size = get_size n d;
    reset = reset n d;
    IsValid = IsValid;
    contents = contents;
    add = ◌∷◌;
    new_lem = new_lem;
    try_push_lem = push_lem;
    try_pop_lem = pop_lem;
    get_size_lem = get_size_lem;
    get_size_fits = get_size_fits;
    reset_lem = reset_lem;
  }
