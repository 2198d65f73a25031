-- ===== src/Lock/Farm/Lines.antt =====
-- What the loops of `FaRM` do to the words of a tuple.
use rdma_synchronization.Common.{
  ℕ, zero, suc, ◌+◌, ◌-◌, ◌*◌, ◌/◌, ◌%◌, ◌<◌, ◌≤◌, ◌≡◌, ◌⊎◌, inl, inr, refl, ◌∙◌, some, ◌==◌, ltb,
  leb, ◌&&◌, if◌then◌else◌, arith, Bool-cases,
}
use rdma_synchronization.Common.Word.{add_u64}
use rdma_synchronization.Rdma.Memory.{Memory, copy_outside}
use rdma_synchronization.Lock.Config.{Config}
use rdma_synchronization.Lock.Farm.{increment, bump_lines, copy_line, check_lines, check}

-- The words that the loop increments, when it has rounds enough: the heads of the lines from `c` on.
pub bump_lines_word :
    (fuel limit c buffer : ℕ) (m : Memory) (i : ℕ)
    → limit ≤ c + 8 * fuel
    → bump_lines fuel limit c buffer m (buffer + 8 * i) ≡ (
        if leb c i && ltb i limit && ((i - c) % 8 == 0)
        then add_u64 (m (buffer + 8 * i)) 1
        else m (buffer + 8 * i))
unfolding bump_lines
bump_lines_word zero limit c buffer m i h = ground arith
bump_lines_word (suc fuel) limit c buffer m i h =
    ground (arith, bump_lines_word fuel limit (c + 8) buffer (increment m (buffer + 8 * c)) i)

abbrev pub Apart : Config → ℕ → ℕ → Type 0
Apart config limit buffer =
    (config.user_buffer + 8 * limit ≤ buffer) ⊎ (buffer + 8 * limit ≤ config.user_buffer)

-- The copies for the user do not touch the tuple.
copy_line_word :
    (config : Config) (limit c buffer : ℕ) (m : Memory) (i : ℕ)
    → Apart config limit buffer
    → c + 8 ≤ limit
    → i < limit
    → copy_line config c buffer m (buffer + 8 * i) ≡ m (buffer + 8 * i)
unfolding copy_line
copy_line_word config limit c buffer m i apart lc li = ground (
  arith,
  copy_outside 7 m (buffer + 8 * c + 8) m (config.user_buffer + 8 * (if c == 0 then 0 else c - 1))
      (buffer + 8 * i),
)

-- The loop of the check reads the head of every line from `c` on.
check_lines_heads :
    (config : Config) (fuel limit c prev buffer : ℕ) (m : Memory) (m' : Memory) (i : ℕ)
    → limit ≤ c + 8 * fuel
    → limit % 8 ≡ 0
    → c % 8 ≡ 0
    → Apart config limit buffer
    → check_lines config fuel limit c prev buffer m ≡ some m'
    → i < limit
    → c ≤ i
    → i % 8 ≡ 0
    → m (buffer + 8 * i) ≡ prev
unfolding check_lines
check_lines_heads config zero limit c prev buffer m m' i h lm cm apart e lt le al =
    absurd (omega arith)
check_lines_heads config (suc fuel) limit c prev buffer m m' i h lm cm apart e lt le al = ground (
  arith,
  check_lines_heads config fuel limit (c + 8) prev buffer (copy_line config c buffer m) m' i,
  copy_line_word config limit c buffer m i apart,
)

-- A tuple that passes the check has one version at the head of all its lines.
pub check-heads :
    (config : Config) (bytes buffer : ℕ) (m m' : Memory)
    → bytes % 64 ≡ 0
    → Apart config (bytes / 8) buffer
    → check config buffer bytes m ≡ some m'
    → (i : ℕ) → i < bytes / 8
    → i % 8 ≡ 0
    → m (buffer + 8 * i) ≡ m buffer
unfolding check
check-heads config bytes buffer m m' whole apart e i lt al =
    check_lines_heads config (bytes / 8 + 1) (bytes / 8) 0 (m buffer) buffer m m' i (omega arith)
      (omega arith) (omega arith) apart e lt (omega arith) al

-- The check accepts every tuple with one version at the head of all its lines.
pub check_lines_accepts :
    (config : Config) (fuel limit c prev buffer : ℕ) (m : Memory)
    → limit % 8 ≡ 0
    → c % 8 ≡ 0
    → Apart config limit buffer
    → ((i : ℕ) → i < limit → i % 8 ≡ 0 → m (buffer + 8 * i) ≡ prev)
    → (m' : Memory) × (check_lines config fuel limit c prev buffer m ≡ some m')
unfolding check_lines
check_lines_accepts config zero limit c prev buffer m lm cm apart same = (m, refl)
check_lines_accepts config (suc fuel) limit c prev buffer m lm cm apart same =
    elim (Bool-cases (ltb c limit)) [
      | inl more ↦
          let lt : c < limit = ground arith in
          let (m', e) =
            check_lines_accepts config fuel limit (c + 8) prev buffer (copy_line config c buffer m)
              lm (omega arith) apart
              (λ i li al.
                copy_line_word config limit c buffer m i apart (omega arith) li ∙ same i li al) in
          (m', ground (arith, same c lt cm, e))
      | inr done ↦ (m, ground arith)
    ]
