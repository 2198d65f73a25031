-- ===== src/Allocator.antt =====
-- `MonotonicBufferResource` of backend/nam/utils/MemoryManagement.hpp, which hands out pieces of one
-- buffer and never takes one back.
pub mod Blocks
use rdma_synchronization.Common.{
  ℕ, ◌+◌, ◌-◌, ◌%◌, Bool, not, Option, none, some, List, [], ◌∷◌, ◌==◌, ltb, if◌then◌else◌,
}

pub record Resource : Type 0 where
  pub buffer_position : ℕ
  pub buffer_size : ℕ
  pub size_left : ℕ

-- The members after the constructor, for a buffer that starts at `buffer`.
pub new_resource : ℕ → ℕ → Resource
new_resource buffer buffer_size = record {
  buffer_position = buffer;
  buffer_size = buffer_size;
  size_left = buffer_size;
}

-- `std::align`: the next position that is a multiple of the alignment and the space left from there,
-- where that leaves room for `bytes`.
pub std_align : ℕ → ℕ → ℕ → ℕ → Option (ℕ × ℕ)
std_align alignment bytes position space =
    let padding = (alignment - position % alignment) % alignment in
    if ltb space (bytes + padding) then none else some (position + padding, space - padding)

-- How `do_allocate` ends: with an address, by `std::bad_alloc`, or by the other exception.
pub data Allocation : Type 0 where
  allocated : ℕ → Resource → Allocation
  bad_alloc : Allocation
  alignment_failed : Allocation

-- The end of `do_allocate`, once the position is aligned.
take : ℕ → ℕ → Resource → ℕ × ℕ → Allocation
take bytes alignment r (position, space) =
    if position % alignment == 0
    then allocated position
        (record r { buffer_position = position + bytes; size_left = space - bytes })
    else alignment_failed

take_aligned : ℕ → ℕ → Resource → Option (ℕ × ℕ) → Allocation
unfolding take
take_aligned bytes alignment r none = bad_alloc
take_aligned bytes alignment r (some p) = take bytes alignment r p

pub do_allocate : ℕ → ℕ → Resource → Allocation
unfolding take_aligned std_align
do_allocate bytes alignment r =
    if ltb r.size_left bytes
    then bad_alloc
    else take_aligned bytes alignment r (std_align alignment bytes r.buffer_position r.size_left)
