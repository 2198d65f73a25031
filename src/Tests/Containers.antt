-- ===== src/Tests/Containers.antt =====
-- A ring buffer of four places, a stack of two, and a buffer of 1000 bytes for an allocator.
use rdma_synchronization.Common.{ℕ, ◌^◌, ◌+◌, ◌≡◌, List, [], ◌∷◌, ◌++◌, arith}
use rdma_synchronization.Allocator.{Resource}
use rdma_synchronization.Allocator.Blocks.{IsValid, blocks, Packed, blocks-Packed}
use rdma_synchronization.Container.Ring.Refine.{ring_container}
use rdma_synchronization.Container.Stack.Refine.{stack_container}
use rdma_synchronization.Container.Run.{Call, push, pop, clear, run, run_list, ring_run, stack_run}

abbrev calls : List (Call ℕ)
calls = push 1 ∷ push 2 ∷ pop ∷ push 3 ∷ push 4 ∷ push 5 ∷ push 6 ∷ pop ∷ clear ∷ pop ∷ []

ring_run_example :
    let C = ring_container {A = ℕ} 2 0 (omega arith) in
    run C calls C.new ≡ run_list (λ x l. l ++ (x ∷ [])) (2 ^ 2) calls []
ring_run_example = ring_run 2 0 (omega arith) calls

stack_run_example :
    let C = stack_container {A = ℕ} 2 0 (omega arith) in run C calls C.new ≡ run_list ◌∷◌ 2 calls []
stack_run_example = stack_run 2 0 (omega arith) calls

abbrev buffer : Resource
buffer = record { buffer_position = 4096; buffer_size = 1000; size_left = 1000 }

buffer-IsValid : IsValid 4096 buffer
buffer-IsValid = record { above = omega arith; whole = omega arith }

blocks_example : Packed 4096 (blocks ((10, 8) ∷ (100, 64) ∷ (2000, 64) ∷ []) buffer) (4096 + 1000)
blocks_example =
    blocks-Packed ((10, 8) ∷ (100, 64) ∷ (2000, 64) ∷ []) 4096 buffer buffer-IsValid
      (omega arith, (omega arith, (omega arith, tt)))
