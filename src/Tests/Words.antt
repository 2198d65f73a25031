-- ===== src/Tests/Words.antt =====
-- Buffers of a few words: the checks of a reader and what a writer puts there.
use rdma_synchronization.Common.{ℕ, ◌+◌, ◌*◌, ◌≡◌, refl, false, some, List, [], ◌∷◌, arith, inr}
use rdma_synchronization.Common.Word.{add_u64}
use rdma_synchronization.Rdma.Memory.{Memory}
use rdma_synchronization.Lock.Config.{Config}
use rdma_synchronization.Lock.Farm
use rdma_synchronization.Lock.Farm.{increment}
use rdma_synchronization.Lock.Farm.Snapshot.{no_torn_read, next_version, check_accepts}

-- The sum of the words in place of a checksum.
abbrev add_words : ℕ → List ℕ → ℕ
add_words s [] = s
add_words s (w ∷ l) = add_words (s + w) l

abbrev config : Config
config = record { batch_size = 1; memcpy = false; user_buffer = 4096; crc64 = add_words }

-- Two cache lines, each of them 7 throughout.
abbrev sevens : Memory
sevens = λ _. 7

sevens_checked : (m' : Memory) × (Farm.check config 0 128 sevens ≡ some m')
sevens_checked = check_accepts config 128 0 sevens refl (inr (omega arith)) (λ i h k. refl)

no_torn_read_example : sevens (0 + 8 * 3) ≡ 7
no_torn_read_example =
    no_torn_read config 128 0 sevens sevens_checked.0 (λ k i. k) (λ line. 7) refl
      (inr (omega arith)) (λ k i h e. refl) (λ i h. refl) sevens_checked.1 3 (omega arith)

next_version_example : increment (Farm.generate 0 128 sevens) 0 (0 + 8 * 8) ≡ add_u64 7 1
next_version_example = next_version 128 0 7 sevens 8 (omega arith) (λ j h k. refl)
