-- ===== src/Benchmark/Words.antt =====
-- The words of a tuple that the workers of frontend/optmistic_benchmark.cpp write and compare.
use rdma_synchronization.Common.{
  ℕ, zero, suc, ◌+◌, ◌*◌, ◌/◌, ◌%◌, ◌^◌, ◌<◌, ◌≤◌, ◌≡◌, ◌≢◌, refl, sym, true, ◌==◌, ltb, leb, ◌&&◌,
  if◌then◌else◌, arith, some, eq→==,
}
use rdma_synchronization.Common.Word.{add_u64}
use rdma_synchronization.Rdma.Memory.{Memory}
use rdma_synchronization.Lock.Config.{
  Consistency, farm, crc, v2, broken, rc, LockType, header, footer,
}
use rdma_synchronization.Lock.Exclusive.{lock_word, version_word}
use rdma_synchronization.Random.{get_rand_u64}
use rdma_synchronization.Random.Bounds.{get_rand_u64_bounds}
use rdma_synchronization.Benchmark.{
  random_index, increment_word, increment_line, increment_lines, all_equal,
}

index_lem :
    (cons : Consistency) (lt : LockType) (lines rnd_cl rnd_idx : ℕ)
    → rnd_cl < lines
    → 3 ≤ rnd_idx
    → rnd_idx < 6
    → let index = random_index rnd_cl rnd_idx in
      let bytes = 64 * lines in
      (index < bytes / 8)
      × (index ≢ lock_word lt bytes)
      × (index ≢ version_word cons lt bytes)
      × (index % 8 ≢ 0)
      × (2 < index)
unfolding random_index version_word
index_lem cons lt lines rnd_cl rnd_idx line low high =
    (omega arith, not_lock lt, not_version cons lt, (λ e. omega arith), omega arith)
  where
    not_lock : (lt : LockType) → rnd_cl * 8 + rnd_idx ≢ lock_word lt (64 * lines)
    not_lock header e = omega arith
    not_lock footer e = omega arith

    not_version :
        (cons : Consistency) (lt : LockType)
        → rnd_cl * 8 + rnd_idx ≢ version_word cons lt (64 * lines)
    not_version v2 footer e = omega arith
    not_version v2 header e = omega arith
    not_version farm lt e = omega arith
    not_version crc lt e = omega arith
    not_version broken lt e = omega arith
    not_version rc lt e = omega arith

-- The word that a writer changes is inside a tuple of whole cache lines, and is neither its lock word
-- nor its version word nor the first word of a line, nor one of the words of a checksum.
pub random_index_lem :
    (cons : Consistency) (lt : LockType) (lines cl_draw idx_draw rnd_cl rnd_idx : ℕ)
    → lines < 2 ^ 64
    → get_rand_u64 cl_draw 0 lines ≡ some rnd_cl
    → get_rand_u64 idx_draw 3 6 ≡ some rnd_idx
    → let index = random_index rnd_cl rnd_idx in
      let bytes = 64 * lines in
      (index < bytes / 8)
      × (index ≢ lock_word lt bytes)
      × (index ≢ version_word cons lt bytes)
      × (index % 8 ≢ 0)
      × (2 < index)
unfolding random_index get_rand_u64 version_word
random_index_lem cons lt lines cl_draw idx_draw rnd_cl rnd_idx small e1 e2 =
    let line = get_rand_u64_bounds cl_draw 0 lines rnd_cl e1 in
    let place = get_rand_u64_bounds idx_draw 3 6 rnd_idx e2 in
    index_lem cons lt lines rnd_cl rnd_idx line.1 place.0 place.1

module _ (buffer : ℕ) where
  -- Word `v` of line `l`.
  abbrev word : ℕ → ℕ → ℕ
  word l v = buffer + 8 * (l * 8 + v)

  increment_word-word :
      (i j : ℕ) (m : Memory)
      → increment_word buffer i m (buffer + 8 * j)
        ≡ (if i == j then add_u64 (m (buffer + 8 * j)) 1 else m (buffer + 8 * j))
  unfolding increment_word
  increment_word-word i j m = ground arith

  increment_line-word :
      (cl_i : ℕ) (m : Memory) (l v : ℕ)
      → 3 ≤ v
      → v < 6
      → increment_line buffer cl_i m (word l v)
        ≡ (if l == cl_i then add_u64 (m (word l v)) 1 else m (word l v))
  unfolding increment_line
  increment_line-word cl_i m l v low high =
      let m3 = increment_word buffer (cl_i * 8 + 3) m in
      let m4 = increment_word buffer (cl_i * 8 + 4) m3 in
      ground (
        arith,
        increment_word-word (cl_i * 8 + 5) (l * 8 + v) m4,
        increment_word-word (cl_i * 8 + 4) (l * 8 + v) m3,
        increment_word-word (cl_i * 8 + 3) (l * 8 + v) m,
      )

  increment_lines-word :
      (count cl_i : ℕ) (m : Memory) (l v : ℕ)
      → 3 ≤ v
      → v < 6
      → increment_lines buffer count cl_i m (word l v)
        ≡ (if leb cl_i l && ltb l (cl_i + count) then add_u64 (m (word l v)) 1 else m (word l v))
  unfolding increment_lines
  increment_lines-word zero cl_i m l v low high = ground arith
  increment_lines-word (suc count) cl_i m l v low high = ground (
    arith,
    increment_lines-word count (cl_i + 1) (increment_line buffer cl_i m) l v low high,
    increment_line-word cl_i m l v low high,
  )

  all_equal-same :
      (count cl_i v : ℕ) (m : Memory)
      → ((l i : ℕ) → cl_i ≤ l → l < cl_i + count → 3 ≤ i → i < 6 → m (word l i) ≡ v)
      → all_equal buffer v count cl_i m ≡ true
  unfolding all_equal
  all_equal-same zero cl_i v m same = refl
  all_equal-same (suc count) cl_i v m same =
      rw
        (
          eq→== v (m (word cl_i 3))
              (sym (same cl_i 3 (omega arith) (omega arith) (omega arith) (omega arith))),
          eq→== v (m (word cl_i 4))
              (sym (same cl_i 4 (omega arith) (omega arith) (omega arith) (omega arith))),
          eq→== v (m (word cl_i 5))
              (sym (same cl_i 5 (omega arith) (omega arith) (omega arith) (omega arith))),
        )
        (all_equal-same count (cl_i + 1) v m (λ l i a b. same l i (omega arith) (omega arith)))

  -- Where the words 3, 4 and 5 of all lines of a tuple hold one value, they do so again after a round
  -- of a writer of `run_check`, and a reader's loop finds them equal.
  pub all_equal-increment_lines :
      (lines v : ℕ) (m : Memory)
      → 0 < lines
      → ((l i : ℕ) → l < lines → 3 ≤ i → i < 6 → m (word l i) ≡ v)
      → let m' = increment_lines buffer lines 0 m in
        ((l i : ℕ) → l < lines → 3 ≤ i → i < 6 → m' (word l i) ≡ add_u64 v 1)
        × (all_equal buffer (m' (buffer + 8 * 3)) lines 0 m' ≡ true)
  all_equal-increment_lines lines v m pos same = (
    next,
    rw (first) (
        all_equal-same lines 0 (add_u64 v 1) (increment_lines buffer lines 0 m)
          (λ l i a b low high. next l i (omega arith) low high)),
  )
    where
      next :
          (l i : ℕ)
          → l < lines
          → 3 ≤ i
          → i < 6
          → increment_lines buffer lines 0 m (word l i) ≡ add_u64 v 1
      next l i lt low high = ground (arith, increment_lines-word lines 0 m l i low high, same l i)

      first : increment_lines buffer lines 0 m (buffer + 8 * 3) ≡ add_u64 v 1
      first = next 0 3 pos (omega arith) (omega arith)
