-- ===== src/Container/Ring.antt =====
-- `RingBuffer<T, N>` of backend/nam/utils/BatchQueue.hpp. `N` is `2 ^ k`, as its static_assert says;
-- `d` is the value `T{}` that the array starts with. The two counters are never masked and wrap
-- at 2 ^ 64; only an index into the array is masked.
mod Index
pub mod Refine
use rdma_synchronization.Common.{
  ℕ, ◌-◌, ◌^◌, zero, suc, Bool, true, false, Option, none, some, List, [], ◌∷◌, bit_and, ◌==◌,
  if◌then◌else◌, get_or, set, replicate,
}
use rdma_synchronization.Common.Word.{add_u64, sub_u64}

pub record RingBuffer (A : Type 0) : Type 0 where
  pub read : ℕ
  pub write : ℕ
  pub buffer : List A

module _ {A : Type 0} (k : ℕ) (d : A) where
  abbrev pub capacity : ℕ
  capacity = 2 ^ k

  pub new_ring : RingBuffer A
  new_ring = record { read = 0; write = 0; buffer = replicate capacity d }

  pub mask : ℕ → ℕ
  mask val = bit_and val (capacity - 1)

  pub get_size : RingBuffer A → ℕ
  get_size r = sub_u64 r.write r.read

  pub empty : RingBuffer A → Bool
  empty r = r.read == r.write

  pub full : RingBuffer A → Bool
  unfolding get_size
  full r = get_size r == capacity

  pub try_push : A → RingBuffer A → Bool × RingBuffer A
  unfolding full mask
  try_push e r =
      if full r
      then (false, r)
      else (true, record r { buffer = set r.buffer (mask r.write) e; write = add_u64 r.write 1 })

  -- The option is what goes out through the reference: `none` where the call returns false.
  pub try_pop : RingBuffer A → Option A × RingBuffer A
  unfolding empty mask
  try_pop r =
      if empty r
      then (none, r)
      else (some (get_or r.buffer (mask r.read) d), record r { read = add_u64 r.read 1 })

  pub reset : RingBuffer A → RingBuffer A
  reset r = record r { read = 0; write = 0 }
