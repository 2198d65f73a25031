-- ===== src/Latch/Optimistic/Cases.antt =====
-- What a result of an `OptimisticLatch` operation says about the word.
use rdma_synchronization.Common.{
  ℕ, ◌+◌, ◌/◌, ◌%◌, ◌^◌, ◌≡◌, refl, ◌⊎◌, true, false, none, some, arith,
}
use rdma_synchronization.Latch.Bits.{is_latched-bit}
use rdma_synchronization.Latch.Optimistic.{
  optimistic_latch_or_restart, upgrade_to_exclusive_latch, unlatch_exclusive, check_or_restart,
  write_unlock_obsolete,
}

pub start_cases :
    (w : ℕ)
    → (optimistic_latch_or_restart w ≡ none) × (w / 2 % 2 ≡ 1)
      ⊎ (optimistic_latch_or_restart w ≡ some w) × (w / 2 % 2 ≡ 0)
unfolding optimistic_latch_or_restart
start_cases w = ground (arith, is_latched-bit w)

pub upgrade-true :
    (v w : ℕ) {v' w' : ℕ}
    → upgrade_to_exclusive_latch v w ≡ (true, v', w')
    → (w ≡ v) × (w' ≡ (w + 2) % 2 ^ 64)
unfolding upgrade_to_exclusive_latch
upgrade-true v w h = ground arith

pub upgrade-false :
    (v w : ℕ) {v' w' : ℕ} → upgrade_to_exclusive_latch v w ≡ (false, v', w') → w' ≡ w
unfolding upgrade_to_exclusive_latch
upgrade-false v w h = ground arith

pub unlatch-some : (w : ℕ) {w' : ℕ} → unlatch_exclusive w ≡ some w' → w' ≡ (w + 2) % 2 ^ 64
unfolding unlatch_exclusive
unlatch-some w h = ground arith

pub check-true : (v w : ℕ) → check_or_restart v w ≡ true → v ≡ w
unfolding check_or_restart
check-true v w h = ground arith

pub write_unlock_obsolete_lem : (w : ℕ) → write_unlock_obsolete w ≡ (w + 3) % 2 ^ 64
unfolding write_unlock_obsolete
write_unlock_obsolete_lem w = refl

pub unlatch-none : (w : ℕ) → unlatch_exclusive w ≡ none → w / 2 % 2 ≡ 0
unfolding unlatch_exclusive
unlatch-none w h = ground (arith, is_latched-bit w)
