-- ===== src/Tests/Queues.antt =====
-- A queue of two batches, each a ring buffer of four numbers.
use rdma_synchronization.Common.{
  ℕ, ◌^◌, ◌<◌, ◌≡◌, ◌↔◌, refl, true, false, none, some, List, [], ◌∷◌, update, arith,
}
use rdma_synchronization.Common.Options.{◌>>=◌, Returns}
use rdma_synchronization.Container.Interface.{Container, bounded_push}
use rdma_synchronization.Container.Ring.Refine.{ring_container}
use rdma_synchronization.BatchQueue.{
  assert_no_duplicates, BatchQueue, size_at, initial, link_full, link_empty, new_queue,
  try_pop_full, reset, increment_elements,
}
use rdma_synchronization.BatchQueue.Chain.{total}
use rdma_synchronization.BatchQueue.Inv.Links.{link_full-Inv, link_empty-Inv, refill-Inv}
use rdma_synchronization.BatchQueue.Inv.Ops.{Rests, unlatch}
use rdma_synchronization.BatchQueue.Inv.Setup.{initial-Rests}
use rdma_synchronization.BatchQueue.Inv.Duplicates.{assert_no_duplicates_lem}
use rdma_synchronization.BatchQueue.Histories.{
  Call, push_full, push_empty, pop_full, pop_empty, fill, clean, run, Sound, histories-Sound,
}
use rdma_synchronization.BatchQueue.Inv.Drain.{AllFilled, try_pop_full-none, reset-Rests}

abbrev C : Container ℕ
C = ring_container 2 0 (omega arith)

-- Both batches in hand, the first with an element.
abbrev one : C.State
one = (C.try_push 7 C.new).1

abbrev in_hand : BatchQueue C
in_hand = record (initial C 2) {
  batches = update (initial C 2).batches 0 (record ((initial C 2).batches 0) { container = one });
}

in_hand-Rests : Rests C in_hand [] [] (0 ∷ 1 ∷ [])
in_hand-Rests = record {
  inv = refill-Inv C 0 (C.try_push_lem 7 C.new C.new_lem.0).0 (initial-Rests C 2 (omega arith)).inv;
  free = refl;
}

bare : size_at C in_hand 1 ≡ 0
bare = ground (arith, C.get_size_lem C.new C.new_lem.0, C.new_lem.1)

one_filled : 0 < C.get_size one
unfolding bounded_push
one_filled =
    let law = C.try_push_lem 7 C.new C.new_lem.0 in
    ground (arith, C.get_size_lem one law.0, law.1, C.new_lem.1)

-- The first batch on the full list, and both.
abbrev one_full : BatchQueue C
one_full = record (link_full C 0 in_hand) { latch = false }

one_full-Rests : Rests C one_full (0 ∷ []) [] (1 ∷ [])
one_full-Rests = unlatch C (link_full-Inv C 0 in_hand-Rests.inv)

bare_still : size_at C one_full 1 ≡ 0
unfolding increment_elements
bare_still = ground (arith, bare)

abbrev ready : BatchQueue C
ready = record (link_empty C 1 one_full) { latch = false }

ready-Rests : Rests C ready (0 ∷ []) (1 ∷ []) []
ready-Rests = unlatch C (link_empty-Inv C 1 bare_still one_full-Rests.inv)

ready_filled : AllFilled C ready.batches (0 ∷ [])
unfolding increment_elements
ready_filled = ground (arith, one_filled)

ready_small : total C ready.batches (0 ∷ []) < 2 ^ 64
unfolding increment_elements
ready_small = ground (arith, C.get_size_fits one (C.try_push_lem 7 C.new C.new_lem.0).0)

try_pop_full-none_example : ((try_pop_full C ready).0 ≡ none) ↔ (◌≡◌ {A = List ℕ} (0 ∷ []) [])
try_pop_full-none_example = try_pop_full-none C (0 ∷ []) ready-Rests ready_filled ready_small

reset_example : Returns (reset C 2 ready) (λ q. (E : List ℕ) × Rests C q [] E [] × (q.elements ≡ 0))
reset_example = reset-Rests C (0 ∷ []) 2 (omega arith) ready-Rests ready_filled ready_small

assert_no_duplicates_example : assert_no_duplicates C ready ≡ some true
assert_no_duplicates_example = assert_no_duplicates_lem C ready ready-Rests.inv

-- A batch is taken, filled, pushed, popped, cleaned and pushed back.
abbrev one_trip : List (Call ℕ)
one_trip = pop_empty ∷ fill 1 7 ∷ push_full 1 ∷ pop_full ∷ clean 1 ∷ push_empty 1 ∷ []

histories_example :
    Returns (new_queue C 2 >>= λ q. run C one_trip (record { queue = q; held = [] })) (Sound C)
histories_example = histories-Sound C 2 one_trip (omega arith)
