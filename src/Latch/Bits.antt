-- ===== src/Latch/Bits.antt =====
-- The version word of a latch: bit 1 says that it is latched.
use rdma_synchronization.Common.{ℕ, ◌+◌, ◌/◌, ◌%◌, ◌≡◌, Bool, bit_and, ◌==◌, arith}
use rdma_synchronization.Common.Word.{bit_and-two, add_u64}

unfoldable pub is_latched : ℕ → Bool
is_latched version = bit_and version 2 == 2

pub is_latched-bit : (v : ℕ) → is_latched v ≡ (v / 2 % 2 == 1)
unfolding is_latched
is_latched-bit v = ground (arith, bit_and-two v)

-- Adding 0b10 flips the latch bit, also where the word wraps.
is_latched-flip : (v : ℕ) → (add_u64 v 2 / 2 % 2) + v / 2 % 2 ≡ 1
is_latched-flip v = omega arith
