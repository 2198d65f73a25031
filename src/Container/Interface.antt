-- ===== src/Container/Interface.antt =====
-- What a batch expects of its container (the template argument `Container` of `Batch` in
-- backend/nam/utils/BatchQueue.hpp): the operations, and a bounded list that they work on.
use rdma_synchronization.Common.{
  ℕ, Bool, true, false, Option, none, some, List, [], ◌∷◌, ◌==◌, ◌≡◌, ◌<◌, ◌^◌, if◌then◌else◌,
  length,
}

-- What a push does to a bounded list; `add` says at which end the element goes in.
unfoldable pub bounded_push : {A : Type 0} → (A → List A → List A) → ℕ → A → List A → Bool × List A
bounded_push add cap e l = if length l == cap then (false, l) else (true, add e l)

unfoldable pub pop_front : {A : Type 0} → List A → Option A × List A
pop_front [] = (none, [])
pop_front (x ∷ l) = (some x, l)

pub record Container (A : Type 0) : Type 1 where
  pub State : Type 0
  pub capacity : ℕ
  pub new : State
  pub try_push : A → State → Bool × State
  pub try_pop : State → Option A × State
  pub get_size : State → ℕ
  pub reset : State → State
  pub IsValid : State → Type 0
  pub contents : State → List A
  pub add : A → List A → List A
  pub new_lem : IsValid new × (contents new ≡ [])
  pub try_push_lem :
      (e : A) (c : State)
      → IsValid c
      → let (b, c') = try_push e c in
        IsValid c' × ((b, contents c') ≡ bounded_push add capacity e (contents c))
  pub try_pop_lem :
      (c : State)
      → IsValid c
      → let (e, c') = try_pop c in IsValid c' × ((e, contents c') ≡ pop_front (contents c))
  pub get_size_lem : (c : State) → IsValid c → get_size c ≡ length (contents c)
  pub get_size_fits : (c : State) → IsValid c → get_size c < 2 ^ 64
  pub reset_lem : (c : State) → IsValid c → IsValid (reset c) × (contents (reset c) ≡ [])
