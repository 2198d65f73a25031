-- ===== src/Allocator/Blocks.antt =====
-- Where the blocks of an allocator lie.
use rdma_synchronization.Common.{
  ℕ, ◌+◌, ◌-◌, ◌*◌, ◌/◌, ◌%◌, ◌<◌, ◌≤◌, ◌≡◌, ap, ◌∙◌, sym, List, [], ◌∷◌, arith,
}
use native.Mathlib.Nat.{mod-lt, div-add-mod', add-mod-mod, add-mul-mod_self_right, zero-mod}
use rdma_synchronization.Allocator.{
  Resource, Allocation, allocated, bad_alloc, alignment_failed, std_align, take, take_aligned,
  do_allocate,
}

-- The position moves through the buffer, and what is left lies behind it.
pub record IsValid (buffer : ℕ) (r : Resource) : Type 0 where
  pub above : buffer ≤ r.buffer_position
  pub whole : r.buffer_position + r.size_left ≡ buffer + r.buffer_size

-- What an allocation promises: an aligned block between the old position and the new, or no room.
abbrev pub Promise : ℕ → ℕ → ℕ → Resource → Allocation → Type 0
Promise buffer bytes alignment r (allocated a r') =
    (a % alignment ≡ 0)
    × (r.buffer_position ≤ a)
    × (a + bytes ≡ r'.buffer_position)
    × (r'.buffer_position ≤ buffer + r.buffer_size)
    × (r'.buffer_size ≡ r.buffer_size)
    × IsValid buffer r'
Promise buffer bytes alignment r bad_alloc = r.size_left < bytes + alignment
Promise buffer bytes alignment r alignment_failed = ⊥

padded :
    (position alignment : ℕ)
    → 0 < alignment
    → (position + (alignment - position % alignment) % alignment) % alignment ≡ 0
padded position alignment pos =
    add-mod-mod position (alignment - position % alignment) alignment
    ∙ ap (λ t. t % alignment) next
    ∙ add-mul-mod_self_right 0 (position / alignment + 1) alignment
    ∙ zero-mod alignment
  where
    next :
        position + (alignment - position % alignment) ≡ 0 + (position / alignment + 1) * alignment
    next = omega (arith, mod-lt position pos, div-add-mod' position alignment)

-- From a valid state, an allocation never ends by the second exception: it gives an aligned block that
-- lies between the old position and the new one, inside the buffer; or there is less room than
-- for the block and the alignment.
do_allocate_lem :
    (buffer bytes alignment : ℕ) (r : Resource)
    → IsValid buffer r
    → 0 < alignment
    → Promise buffer bytes alignment r (do_allocate bytes alignment r)
unfolding do_allocate take_aligned take std_align
do_allocate_lem buffer bytes alignment r v pos = ground (
  arith,
  v.above,
  v.whole,
  padded r.buffer_position alignment pos,
  mod-lt (alignment - r.buffer_position % alignment) pos,
)

-- The blocks, with their sizes, that a sequence of requests for bytes and an alignment is given; a
-- request that finds no room leaves the resource as it is.
pub blocks : List (ℕ × ℕ) → Resource → List (ℕ × ℕ)
blocks [] r = []
blocks ((bytes, alignment) ∷ requests) r = elim (do_allocate bytes alignment r) [
  | allocated a r' ↦ (a, bytes) ∷ blocks requests r'
  | bad_alloc ↦ blocks requests r
  | alignment_failed ↦ blocks requests r
]

-- Every block ends before the next one begins, all of them from `low` to `high`.
abbrev pub Packed : ℕ → List (ℕ × ℕ) → ℕ → Type 0
Packed low [] high = low ≤ high
Packed low ((a, bytes) ∷ l) high = (low ≤ a) × Packed (a + bytes) l high

abbrev pub Aligned : List (ℕ × ℕ) → Type 0
Aligned [] = Unit
Aligned ((bytes, alignment) ∷ l) = (0 < alignment) × Aligned l

-- The blocks of any sequence of requests lie in the buffer, one behind the other, so that no two of
-- them overlap.
pub blocks-Packed :
    (requests : List (ℕ × ℕ)) (buffer : ℕ) (r : Resource)
    → IsValid buffer r
    → Aligned requests
    → Packed r.buffer_position (blocks requests r) (buffer + r.buffer_size)
unfolding blocks
blocks-Packed [] buffer r v al = omega (arith, v.whole)
blocks-Packed ((bytes, alignment) ∷ requests) buffer r v (pos, al) =
    go (do_allocate bytes alignment r) (do_allocate_lem buffer bytes alignment r v pos)
      (λ r' v'. blocks-Packed requests buffer r' v' al)
  where
    Rest : Type 0
    Rest =
        (r' : Resource)
        → IsValid buffer r'
        → Packed r'.buffer_position (blocks requests r') (buffer + r'.buffer_size)

    go :
        (o : Allocation)
        → Promise buffer bytes alignment r o
        → Rest
        → Packed r.buffer_position
            (elim o [
              | allocated a r' ↦ (a, bytes) ∷ blocks requests r'
              | bad_alloc ↦ blocks requests r
              | alignment_failed ↦ blocks requests r
            ])
            (buffer + r.buffer_size)
    go (allocated a r') (_, le, end, _, size, v') rest = (le, rw (end, sym size) (rest r' v'))
    go bad_alloc p rest = rest r v
    go alignment_failed p rest = rest r v
