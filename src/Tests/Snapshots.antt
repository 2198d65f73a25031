-- ===== src/Tests/Snapshots.antt =====
-- A writer and an optimistic reader of one tuple that nobody else touches.
use rdma_synchronization.Common.{ℕ, ◌+◌, ◌*◌, ◌<◌, ◌≡◌, refl, true, some, [], ◌∷◌, arith, inl}
use rdma_synchronization.Rdma.Memory.{store}
use rdma_synchronization.Rdma.Client.{Client, Returns}
use rdma_synchronization.Lock.Config.{w_unlocked}
use rdma_synchronization.Lock.Optimistic.Writers.{State, idle, lock_at, Inv, Reach, here}
use rdma_synchronization.Lock.Optimistic.Reads.{Ends, read_twice}
use rdma_synchronization.Lock.Optimistic.Snapshot.{v2_snapshot}
use rdma_synchronization.Lock.Exclusive.Steps.{update, update-Reach}
use rdma_synchronization.Lock.Exclusive.HeaderSteps.{header_update, update-Moves}
use rdma_synchronization.Lock.Optimistic.Header.Writers
use rdma_synchronization.Lock.Optimistic.Header.Writers.{latch_at, Moves}
use rdma_synchronization.Lock.Optimistic.Header.Snapshot.{header_read_twice, header_snapshot}
use rdma_synchronization.Tests.Locks.{card, card-IsVerbs, quiet, config, ready, tuple, reader}

abbrev free_tuple : State
free_tuple = record { memory = λ a. 0; phase = idle; bumps = 0 }

free_tuple-Inv : Inv 64 6 free_tuple
free_tuple-Inv = record { lock = refl; version = omega arith }

-- A client with three completions to come.
abbrev three_ready : Client
three_ready = record ready { polls = some (true ∷ []) ∷ some (true ∷ []) ∷ some (true ∷ []) ∷ [] }

v2_snapshot_example : Ends (read_twice card card-IsVerbs quiet config reader 0 three_ready) (λ c'.
    (free_tuple.memory (lock_at 64 6) ≡ w_unlocked)
    × ((i : ℕ) → i < 7 → c'.world.local (8 + 8 * i) ≡ free_tuple.memory (64 + 8 * i)))
v2_snapshot_example =
    v2_snapshot card card-IsVerbs quiet config reader 6 refl three_ready (some (true ∷ []) ∷ []) 0
      true true true [] [] [] refl [] refl free_tuple free_tuple free_tuple (λ i. free_tuple)
      free_tuple-Inv (λ i lt. here) (λ i lt. here) here here (omega arith) refl (λ i lt. refl) refl
      refl

update_example :
    Returns
      (update card card-IsVerbs quiet config tuple (λ m. store m 16 5) ready)
      (λ c'. Reach 64 6 free_tuple (record { memory = c'.world.remote; phase = idle; bumps = 1 }))
update_example =
    update-Reach card card-IsVerbs quiet config tuple 6 (λ m. store m 16 5) ready free_tuple true []
      (some (true ∷ []) ∷ []) refl (inl (omega arith)) refl refl refl (λ j m taken i lt. refl)
      (λ m taken i lt. refl) (λ m. refl)

free_latch-Inv : Writers.Inv 64 6 free_tuple
free_latch-Inv = record { lock = refl; version = omega arith }

header_snapshot_example :
    Ends (header_read_twice card card-IsVerbs quiet config reader 0 three_ready) (λ c'.
      (free_tuple.memory (latch_at 64 6) ≡ w_unlocked)
      × (c'.world.local 8 ≡ free_tuple.memory 64)
      × ((i : ℕ) → i < 6 → c'.world.local (8 + 16 + 8 * i) ≡ free_tuple.memory (64 + 16 + 8 * i)))
header_snapshot_example =
    header_snapshot card card-IsVerbs quiet config reader 6 refl three_ready (some (true ∷ []) ∷ [])
      0 true true true [] [] [] refl [] refl free_tuple free_tuple free_tuple (λ i. free_tuple)
      free_latch-Inv Moves.here (λ i lt. Moves.here) (λ i lt. Moves.here) Moves.here (omega arith)
      refl refl (λ i lt. refl) refl

header_update_example :
    Returns
      (header_update card card-IsVerbs quiet config tuple (λ m. store m 24 5) ready)
      (λ c'. Moves 64 6 free_tuple (record { memory = c'.world.remote; phase = idle; bumps = 1 }))
header_update_example =
    update-Moves card card-IsVerbs quiet config tuple 6 (λ m. store m 24 5) ready free_tuple true []
      (some (true ∷ []) ∷ []) refl (inl (omega arith)) refl refl refl
      (λ j m taken. (refl, refl, λ i lt. refl)) (λ m taken. (refl, refl, λ i lt. refl))
      (λ m. (refl, refl))
