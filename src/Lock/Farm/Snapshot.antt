-- ===== src/Lock/Farm/Snapshot.antt =====
-- Why a reader may trust a tuple that passes the check of `FaRM`.
use rdma_synchronization.Common.{
  ℕ, ◌+◌, ◌*◌, ◌/◌, ◌%◌, ◌<◌, ◌≡◌, sym, ◌∙◌, ap, some, ◌==◌, if◌then◌else◌, arith,
}
use rdma_synchronization.Common.Word.{add_u64}
use rdma_synchronization.Rdma.Memory.{Memory}
use rdma_synchronization.Lock.Config.{Config}
use rdma_synchronization.Lock.Farm.{increment, generate, check}
use rdma_synchronization.Lock.Farm.Lines.{Apart, bump_lines_word, check-heads, check_lines_accepts}

-- A read of several cache lines is not atomic: each line may come from another of the published
-- tuples. Where every published tuple carries its number at the head of all its lines, a buffer that
-- passes the check is one published tuple, whole.
pub no_torn_read :
    (config : Config) (bytes buffer : ℕ) (m m' : Memory)
    → (published : ℕ → ℕ → ℕ) (line_of : ℕ → ℕ) → bytes % 64 ≡ 0
    → Apart config (bytes / 8) buffer
    → ((k i : ℕ) → i < bytes / 8 → i % 8 ≡ 0 → published k i ≡ k)
    → ((i : ℕ) → i < bytes / 8 → m (buffer + 8 * i) ≡ published (line_of (i / 8)) i)
    → check config buffer bytes m ≡ some m'
    → (i : ℕ) → i < bytes / 8
    → m (buffer + 8 * i) ≡ published (m buffer) i
no_torn_read config bytes buffer m m' published line_of whole apart heads torn e i lt =
    torn i lt ∙ ap (λ k. published k i) version
  where
    head : ℕ
    head = 8 * (i / 8)

    head_line : head / 8 ≡ i / 8
    head_line = omega arith

    version : line_of (i / 8) ≡ m buffer
    version =
        ap line_of (sym head_line)
        ∙ sym (heads (line_of (head / 8)) head (omega arith) (omega arith))
        ∙ sym (torn head (omega arith))
        ∙ check-heads config bytes buffer m m' whole apart e head (omega arith) (omega arith)

-- What a writer publishes: it takes a tuple with one version at the head of all lines to the next
-- version at all heads, and leaves the other words alone.
pub next_version :
    (bytes buffer v : ℕ) (m : Memory) (i : ℕ)
    → i < bytes / 8
    → ((j : ℕ) → j < bytes / 8 → j % 8 ≡ 0 → m (buffer + 8 * j) ≡ v)
    → increment (generate buffer bytes m) buffer (buffer + 8 * i)
      ≡ (if i % 8 == 0 then add_u64 v 1 else m (buffer + 8 * i))
unfolding generate
next_version bytes buffer v m i lt same = ground (
  arith,
  bump_lines_word (bytes / 8) (bytes / 8) 8 buffer m i,
  bump_lines_word (bytes / 8) (bytes / 8) 8 buffer m 0,
  same i lt,
  same 0,
)

-- A tuple with one version at the head of all its lines passes the check.
pub check_accepts :
    (config : Config) (bytes buffer : ℕ) (m : Memory)
    → bytes % 64 ≡ 0
    → Apart config (bytes / 8) buffer
    → ((i : ℕ) → i < bytes / 8 → i % 8 ≡ 0 → m (buffer + 8 * i) ≡ m buffer)
    → (m' : Memory) × (check config buffer bytes m ≡ some m')
unfolding check
check_accepts config bytes buffer m whole apart same =
    check_lines_accepts config (bytes / 8 + 1) (bytes / 8) 0 (m buffer) buffer m (omega arith)
      (omega arith) apart same
