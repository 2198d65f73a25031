-- ===== src/Latch/Optimistic.antt =====
-- `OptimisticLatch` of backend/nam/syncprimitives/HybridLatch.hpp. The state is the word
-- `typeVersionLockObsolete`; a function that takes the word and changes it returns the new one.
pub mod Cases
use rdma_synchronization.Common.{ℕ, Bool, true, false, Option, none, some, ◌==◌, if◌then◌else◌}
use rdma_synchronization.Common.Word.{add_u64}
use rdma_synchronization.Latch.Bits.{is_latched}

abbrev pub fresh_word : ℕ
fresh_word = 0b100

-- `none` asks the caller to restart.
unfoldable pub optimistic_latch_or_restart : ℕ → Option ℕ
optimistic_latch_or_restart word = if is_latched word then none else some word

-- The result, the caller's `version`, and the word. A `compare_exchange_strong` that fails puts the word
-- that it has seen in `version`.
unfoldable pub upgrade_to_exclusive_latch : ℕ → ℕ → Bool × ℕ × ℕ
upgrade_to_exclusive_latch version word =
    if is_latched version
    then (false, version, word)
    else if word == version
    then (true, add_u64 version 2, add_u64 version 2)
    else (false, word, word)

-- Both halves with no other thread in between; `Latch.System` puts other threads there.
pub try_latch_exclusive : ℕ → Bool × ℕ
unfolding optimistic_latch_or_restart upgrade_to_exclusive_latch
try_latch_exclusive word = elim (optimistic_latch_or_restart word) [
  | none ↦ (false, word)
  | some version ↦
      (let (upgraded, version', word') = upgrade_to_exclusive_latch version word in
        (upgraded, word'))
]

-- `none` is the exception of `ensure(isLatched())`.
pub unlatch_exclusive : ℕ → Option ℕ
unlatch_exclusive word = if is_latched word then some (add_u64 word 2) else none

-- The version that the caller goes on with, and the word.
pub downgrade_to_optimistic_latch : ℕ → Option (ℕ × ℕ)
unfolding unlatch_exclusive
downgrade_to_optimistic_latch word =
    let version = add_u64 word 2 in
    elim (unlatch_exclusive word) [ none ↦ none | some word' ↦ some (version, word') ]

unfoldable pub optimistic_unlatch : ℕ → ℕ → Bool
optimistic_unlatch start_read word = start_read == word

unfoldable pub check_or_restart : ℕ → ℕ → Bool
unfolding optimistic_unlatch
check_or_restart start_read word = optimistic_unlatch start_read word

pub write_unlock_obsolete : ℕ → ℕ
write_unlock_obsolete word = add_u64 word 3
