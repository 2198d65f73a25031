-- ===== src/Lock/ReaderWriter/Tuple.antt =====
-- The tuples of frontend/locking_benchmark.cpp: how a writer fills one and how a reader verifies it.
use rdma_synchronization.Common.{
  ℕ, zero, suc, ◌+◌, ◌-◌, ◌*◌, ◌/◌, ◌<◌, ◌≤◌, ◌≡◌, refl, ap, ◌∙◌, sym, Bool, true, false, ◌==◌, ltb,
  if◌then◌else◌, arith,
}
use rdma_synchronization.Common.Word.{add_u64}
use rdma_synchronization.Rdma.Memory.{Memory, store}

-- `old[i] = new_version` for `rounds` indices from `i` on.
pub fill : ℕ → ℕ → ℕ → ℕ → Memory → Memory
fill zero i old new_version m = m
fill (suc rounds) i old new_version m =
    fill rounds (i + 1) old new_version (store m (old + 8 * i) new_version)

-- The loop has the indices from 1 to `tuple_size / 8 - 1`.
pub increment_tuple : ℕ → ℕ → Memory → Memory
unfolding fill
increment_tuple old tuple_size m =
    let new_version = add_u64 (m (old + 8)) 1 in
    fill (tuple_size / 8 - 1) 1 old new_version (store m (old + 8) new_version)

-- The reader's loop; false is its `throw`.
pub verify_from : ℕ → ℕ → ℕ → ℕ → Memory → Bool
verify_from zero i prev_version old m = true
verify_from (suc rounds) i prev_version old m =
    let rest = verify_from rounds (i + 1) (m (old + 8 * i)) old m in
    if prev_version == m (old + 8 * i) then rest else false

pub verify : ℕ → ℕ → Memory → Bool
unfolding verify_from
verify old tuple_size m = verify_from (tuple_size / 8 - 1) 1 (m (old + 8)) old m

pub fill-word :
    (rounds i old v : ℕ) (m : Memory) (j : ℕ)
    → j < i + rounds
    → fill rounds i old v m (old + 8 * j) ≡ (if ltb j i then m (old + 8 * j) else v)
unfolding fill
fill-word zero i old v m j h = ground arith
fill-word (suc rounds) i old v m j h =
    ground (arith, fill-word rounds (i + 1) old v (store m (old + 8 * i) v) j)

verify_from-same :
    (rounds i v old : ℕ) (m : Memory)
    → ((j : ℕ) → i ≤ j → j < i + rounds → m (old + 8 * j) ≡ v)
    → verify_from rounds i v old m ≡ true
unfolding verify_from
verify_from-same zero i v old m same = refl
verify_from-same (suc rounds) i v old m same =
    rw
      (
        same i (omega arith) (omega arith),
        verify_from-same rounds (i + 1) v old m (λ j h k. same j (omega arith) (omega arith)),
      )
      (ground arith)

verify_from_sound :
    (rounds i v old : ℕ) (m : Memory) (j : ℕ)
    → verify_from rounds i v old m ≡ true
    → i ≤ j
    → j < i + rounds
    → m (old + 8 * j) ≡ v
unfolding verify_from
verify_from_sound zero i v old m j e h k = absurd (omega arith)
verify_from_sound (suc rounds) i v old m j e h k =
    ground (arith, verify_from_sound rounds (i + 1) (m (old + 8 * i)) old m j)

-- A writer puts the next version into every word behind the lock word, and leaves that one alone.
increment_tuple-word :
    (old tuple_size : ℕ) (m : Memory) (i : ℕ)
    → i < tuple_size / 8
    → 1 < tuple_size / 8
    → increment_tuple old tuple_size m (old + 8 * i)
      ≡ (if i == 0 then m (old + 8 * i) else add_u64 (m (old + 8)) 1)
unfolding increment_tuple
increment_tuple-word old tuple_size m i h k = ground (
  arith,
  fill-word (tuple_size / 8 - 1) 1 old (add_u64 (m (old + 8)) 1)
      (store m (old + 8) (add_u64 (m (old + 8)) 1)) i,
)

-- What a writer fills in passes the reader's loop.
verify-increment_tuple :
    (old tuple_size : ℕ) (m : Memory)
    → 1 < tuple_size / 8
    → verify old tuple_size (increment_tuple old tuple_size m) ≡ true
unfolding verify
verify-increment_tuple old tuple_size m k =
    verify_from-same (tuple_size / 8 - 1) 1 _ old (increment_tuple old tuple_size m) (λ j h l.
      word j h (omega arith)
      ∙ sym (word 1 (omega arith) k)
      ∙ ap (increment_tuple old tuple_size m) (omega arith))
  where
    word :
        (j : ℕ)
        → 1 ≤ j
        → j < tuple_size / 8
        → increment_tuple old tuple_size m (old + 8 * j) ≡ add_u64 (m (old + 8)) 1
    word j h l = ground (arith, increment_tuple-word old tuple_size m j l k)

-- A tuple that passes has the same value in all words behind the lock word.
verify_sound :
    (old tuple_size : ℕ) (m : Memory) (i : ℕ)
    → verify old tuple_size m ≡ true
    → 1 ≤ i
    → i < tuple_size / 8
    → m (old + 8 * i) ≡ m (old + 8)
unfolding verify
verify_sound old tuple_size m i e h k =
    verify_from_sound (tuple_size / 8 - 1) 1 (m (old + 8)) old m i e h (omega arith)
