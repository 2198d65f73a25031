-- ===== src/Latch/System/Safety.antt =====
-- What the invariant gives the users of an `OptimisticLatch`.
use rdma_synchronization.Common.{ℕ, ◌+◌, ◌%◌, ◌^◌, ◌<◌, ◌≡◌, ◌≢◌, true, false, none, arith}
use rdma_synchronization.Latch.Bits.{is_latched, is_latched-bit}
use rdma_synchronization.Latch.Optimistic.{
  unlatch_exclusive, check_or_restart, write_unlock_obsolete,
}
use rdma_synchronization.Latch.Optimistic.Cases.{
  check-true, write_unlock_obsolete_lem, unlatch-none,
}
use rdma_synchronization.Latch.System.{System, owner, reader, Reach}
use rdma_synchronization.Latch.System.Inv.{holds, Reach-Inv}

-- However many threads use the latch and however they interleave, two never hold it together.
pub mutual_exclusion :
    {n : ℕ} {s : System}
    → Reach n s
    → (i j : ℕ) → holds (s.pc i) ≡ true
    → holds (s.pc j) ≡ true
    → i ≡ j
mutual_exclusion r i j a b = (Reach-Inv r).unique i j a b

-- A reader whose check passes has seen no write of the protected data: none happened since it
-- started, and no thread holds the latch. The version may not have gone round in the meantime.
pub validated_read :
    {n v e w : ℕ} {s : System}
    → Reach n s
    → (i : ℕ) → s.pc i ≡ reader v e w
    → check_or_restart v s.mem.word ≡ true
    → s.mem.epoch < e + 2 ^ 64
    → (w ≡ s.mem.writes) × ((j : ℕ) → holds (s.pc j) ≡ false)
validated_read {v = v} {s = s} r i here pass near =
    let inv = Reach-Inv r in
    (
      ground (arith, inv.fresh i, inv.wraps, check-true v s.mem.word pass),
      λ j. ground (arith, inv.fresh i, inv.wraps, inv.latched j, check-true v s.mem.word pass),
    )

-- The owner's `ensure(isLatched())` never throws.
owner_unlatches :
    {n : ℕ} {s : System}
    → Reach n s
    → (i : ℕ) → s.pc i ≡ owner
    → unlatch_exclusive s.mem.word ≢ none
owner_unlatches {s = s} r i here bad =
    ground (arith, (Reach-Inv r).latched i, unlatch-none s.mem.word bad)

-- Making obsolete what is obsolete already leaves the latch bit set, with no owner to clear it.
pub obsolete_twice :
    (w : ℕ) → w % 2 ≡ 1 → is_latched w ≡ true → is_latched (write_unlock_obsolete w) ≡ true
obsolete_twice w h k =
    ground (
      arith,
      is_latched-bit w,
      is_latched-bit (write_unlock_obsolete w),
      write_unlock_obsolete_lem w,
    )
