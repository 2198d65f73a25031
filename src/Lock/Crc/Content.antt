-- ===== src/Lock/Crc/Content.antt =====
-- What the checksum of `CRC` says of a copy of the buffer.
use rdma_synchronization.Common.{
  ℕ, suc, ◌+◌, ◌-◌, ◌*◌, ◌/◌, ◌<◌, ◌≤◌, ◌≡◌, ap, ◌∙◌, sym, some, none, ◌==◌, if◌then◌else◌, arith,
  eq→==,
}
use rdma_synchronization.Rdma.Memory.{Memory, words-same}
use rdma_synchronization.Lock.Config.{Config}
use rdma_synchronization.Lock.Crc.{checksum, generate, check}

-- The content is the same before and after `generateConsistencyProof`, which writes the first word.
checksum-generate :
    (config : Config) (buffer bytes : ℕ) (m : Memory)
    → checksum config buffer bytes (generate config buffer bytes m) ≡ checksum config buffer bytes m
unfolding checksum generate
checksum-generate config buffer bytes m = ap (config.crc64 0) (
    words-same ((bytes - 8) / 8) m (generate config buffer bytes m) (buffer + 8) (buffer + 8)
      (λ i h. ground arith))

-- A reader whose copy has the first word of what a writer generated passes
-- `checkConsistencyProof` exactly if the checksum of the rest is that of the writer's content.
check-copy :
    (config : Config) (buffer buffer' bytes : ℕ) (m m' : Memory)
    → m' buffer' ≡ generate config buffer bytes m buffer
    → check config buffer' bytes m' ≡ (
        if checksum config buffer bytes m == checksum config buffer' bytes m'
        then some m'
        else none)
unfolding check generate
check-copy config buffer buffer' bytes m m' first = ground (arith, first)

-- A reader with a complete copy of the words that a writer generated passes the check.
check-accepts :
    (config : Config) (buffer buffer' bytes : ℕ) (m m' : Memory)
    → 8 ≤ bytes
    → ((i : ℕ)
        → i < bytes / 8
        → m' (buffer' + 8 * i) ≡ generate config buffer bytes m (buffer + 8 * i))
    → check config buffer' bytes m' ≡ some m'
unfolding checksum
check-accepts config buffer buffer' bytes m m' size same =
    check-copy config buffer buffer' bytes m m' first
    ∙ ap (λ b. if b then some m' else none)
        (eq→== (checksum config buffer bytes m) (checksum config buffer' bytes m') sums)
  where
    first : m' buffer' ≡ generate config buffer bytes m buffer
    first =
        ap m' (omega arith)
        ∙ same 0 (omega arith)
        ∙ ap (generate config buffer bytes m) (omega arith)

    rest :
        (i : ℕ)
        → i < (bytes - 8) / 8
        → m' (buffer' + 8 + 8 * i) ≡ generate config buffer bytes m (buffer + 8 + 8 * i)
    rest i h =
        ap m' (omega arith)
        ∙ same (suc i) (omega arith)
        ∙ ap (generate config buffer bytes m) (omega arith)

    sums : checksum config buffer bytes m ≡ checksum config buffer' bytes m'
    sums =
        sym (checksum-generate config buffer bytes m)
        ∙ sym (
            ap (config.crc64 0) (
              words-same ((bytes - 8) / 8) (generate config buffer bytes m) m' (buffer + 8)
                (buffer' + 8) rest))
