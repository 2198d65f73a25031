-- ===== src/Container/Run.antt =====
-- Sequences of calls on a container, against the same calls on a bounded list.
use rdma_synchronization.Common.{
  ℕ, ◌^◌, ◌≤◌, ◌<◌, ◌≡◌, refl, ap, ◌∙◌, Bool, Option, List, [], ◌∷◌, ◌++◌,
}
use rdma_synchronization.Container.Interface.{Container, bounded_push, pop_front}
use rdma_synchronization.Container.Ring.Refine.{ring_container}
use rdma_synchronization.Container.Stack.Refine.{stack_container}

pub data Call (A : Type 0) : Type 0 where
  push : A → Call A
  pop : Call A
  clear : Call A

pub data Answer (A : Type 0) : Type 0 where
  pushed : Bool → Answer A
  popped : Option A → Answer A
  cleared : Answer A

-- The answers of a container to the calls, from a state on.
pub run : {A : Type 0} (C : Container A) → List (Call A) → C.State → List (Answer A)
run C [] c = []
run C (push e ∷ calls) c = let (b, c') = C.try_push e c in pushed b ∷ run C calls c'
run C (pop ∷ calls) c = let (e, c') = C.try_pop c in popped e ∷ run C calls c'
run C (clear ∷ calls) c = cleared ∷ run C calls (C.reset c)

-- The answers of a list that holds `cap` elements at most; a pop takes its first element.
pub run_list : {A : Type 0} → (A → List A → List A) → ℕ → List (Call A) → List A → List (Answer A)
run_list add cap [] l = []
run_list add cap (push e ∷ calls) l =
    let (b, l') = bounded_push add cap e l in pushed b ∷ run_list add cap calls l'
run_list add cap (pop ∷ calls) l = let (e, l') = pop_front l in popped e ∷ run_list add cap calls l'
run_list add cap (clear ∷ calls) l = cleared ∷ run_list add cap calls []

run-refines :
    {A : Type 0} (C : Container A) (calls : List (Call A)) (c : C.State)
    → C.IsValid c
    → run C calls c ≡ run_list C.add C.capacity calls (C.contents c)
unfolding run run_list
run-refines C [] c v = refl
run-refines C (push e ∷ calls) c v =
    let law = C.try_push_lem e c v in
    ap (λ l. pushed (C.try_push e c).0 ∷ l) (run-refines C calls (C.try_push e c).1 law.0)
    ∙ ap (λ p. pushed p.0 ∷ run_list C.add C.capacity calls p.1) law.1
run-refines C (pop ∷ calls) c v =
    let law = C.try_pop_lem c v in
    ap (λ l. popped (C.try_pop c).0 ∷ l) (run-refines C calls (C.try_pop c).1 law.0)
    ∙ ap (λ p. popped p.0 ∷ run_list C.add C.capacity calls p.1) law.1
run-refines C (clear ∷ calls) c v =
    let law = C.reset_lem c v in
    ap (λ l. cleared ∷ l) (run-refines C calls (C.reset c) law.0)
    ∙ ap (λ l. cleared ∷ run_list C.add C.capacity calls l) law.1

-- A new ring buffer of capacity `2 ^ k`, for `k` up to 63, answers every sequence of calls as a
-- queue that holds `2 ^ k` elements at most, first in, first out, however often its counters wrap.
pub ring_run :
    {A : Type 0} (k : ℕ) (d : A) (small : k ≤ 63) (calls : List (Call A))
    → let C = ring_container k d small in
      run C calls C.new ≡ run_list (λ x l. l ++ (x ∷ [])) (2 ^ k) calls []
ring_run k d small calls =
    let C = ring_container k d small in
    run-refines C calls C.new C.new_lem.0
    ∙ ap (run_list (λ x l. l ++ (x ∷ [])) (2 ^ k) calls) C.new_lem.1

-- A new stack of `n` places, for `n` below `2 ^ 64`, answers every sequence of calls as a list that
-- holds `n` elements at most, last in, first out.
pub stack_run :
    {A : Type 0} (n : ℕ) (d : A) (small : n < 2 ^ 64) (calls : List (Call A))
    → let C = stack_container n d small in run C calls C.new ≡ run_list ◌∷◌ n calls []
stack_run n d small calls =
    let C = stack_container n d small in
    run-refines C calls C.new C.new_lem.0 ∙ ap (run_list ◌∷◌ n calls) C.new_lem.1
