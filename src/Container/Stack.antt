-- ===== src/Container/Stack.antt =====
-- `Stack<T, N>` of backend/nam/utils/BatchQueue.hpp; `d` is the value `T{}` that the array starts
-- with. The debug assertion `size <= N` is part of `IsValid`.
pub mod Refine
use rdma_synchronization.Common.{
  ℕ, ◌+◌, ◌-◌, Bool, true, false, Option, none, some, List, [], ◌∷◌, ◌==◌, if◌then◌else◌, get_or,
  set, replicate,
}

pub record Stack (A : Type 0) : Type 0 where
  pub size : ℕ
  pub buffer : List A

module _ {A : Type 0} (n : ℕ) (d : A) where
  pub new_stack : Stack A
  new_stack = record { size = 0; buffer = replicate n d }

  pub empty : Stack A → Bool
  empty s = s.size == 0

  pub full : Stack A → Bool
  full s = s.size == n

  pub get_size : Stack A → ℕ
  get_size s = s.size

  pub try_push : A → Stack A → Bool × Stack A
  unfolding full
  try_push e s =
      if full s
      then (false, s)
      else (true, record { buffer = set s.buffer s.size e; size = s.size + 1 })

  -- The option is what goes out through the reference: `none` where the call returns false.
  pub try_pop : Stack A → Option A × Stack A
  unfolding empty
  try_pop s =
      if empty s
      then (none, s)
      else (some (get_or s.buffer (s.size - 1) d), record s { size = s.size - 1 })

  pub reset : Stack A → Stack A
  reset s = record s { size = 0 }
