-- ===== src/Tests/Latches.antt =====
-- Two threads at one latch, and a `HybridLatch` that is free, or held by a writer.
use rdma_synchronization.Common.{ℕ, ◌≡◌, refl, true, false, arith, update, ℕ_discrete}
use rdma_synchronization.Latch.Bits.{is_latched}
use rdma_synchronization.Latch.Optimistic.{
  optimistic_latch_or_restart, upgrade_to_exclusive_latch, check_or_restart, optimistic_unlatch,
  write_unlock_obsolete,
}
use rdma_synchronization.Latch.System.{
  loaded, owner, reader, load, cas_win, read, System, init, Reach, initially, then_move,
}
use rdma_synchronization.Latch.System.Inv.{holds}
use rdma_synchronization.Latch.System.Safety.{mutual_exclusion, validated_read, obsolete_twice}
use rdma_synchronization.Latch.Hybrid
use rdma_synchronization.Latch.Hybrid.{HybridLatch, fresh, returns, ◌>>=◌, bump, free}
use rdma_synchronization.Latch.Hybrid.Laws.{IsValid, upgrade_exclusive_lem}

abbrev one_loaded : System
one_loaded = record { mem = init.mem; pc = update init.pc 0 (loaded 4) }

one_loaded-Reach : Reach 2 one_loaded
unfolding optimistic_latch_or_restart is_latched
one_loaded-Reach = then_move 0 (omega arith) initially load

abbrev one_owner : System
one_owner = record {
  mem = record { word = 6; epoch = 6; writes = 0 };
  pc = update one_loaded.pc 0 owner;
}

one_owner-Reach : Reach 2 one_owner
unfolding upgrade_to_exclusive_latch is_latched ℕ_discrete
one_owner-Reach = then_move 0 (omega arith) one_loaded-Reach (cas_win {v = 4} {v' = 6} {w = 6} refl)

abbrev one_reader : System
one_reader = record { mem = init.mem; pc = update init.pc 1 (reader 4 4 0) }

one_reader-Reach : Reach 2 one_reader
unfolding optimistic_latch_or_restart is_latched
one_reader-Reach = then_move 1 (omega arith) initially read

mutual_exclusion_example : ◌≡◌ {A = ℕ} 0 0
unfolding ℕ_discrete
mutual_exclusion_example = mutual_exclusion one_owner-Reach 0 0 refl refl

same_word : check_or_restart 4 4 ≡ true
unfolding check_or_restart optimistic_unlatch
same_word = refl

validated_read_example : (◌≡◌ {A = ℕ} 0 0) × ((j : ℕ) → holds (one_reader.pc j) ≡ false)
unfolding ℕ_discrete
validated_read_example = validated_read one_reader-Reach 1 refl same_word (omega arith)

three_latched : is_latched 3 ≡ true
unfolding is_latched
three_latched = refl

obsolete_twice_example : is_latched (write_unlock_obsolete 3) ≡ true
obsolete_twice_example = obsolete_twice 3 refl three_latched

fresh-IsValid : IsValid fresh
fresh-IsValid = record { fits = omega arith; writing = λ e. cc; resting = λ _. refl }

abbrev written : HybridLatch
written = record { version = 6; writer = true; readers = 0 }

written-IsValid : IsValid written
written-IsValid = record { fits = omega arith; writing = λ _. (refl, refl); resting = λ e. cc }

-- Other threads do nothing.
abbrev quiet : HybridLatch → HybridLatch
quiet l = l

released-IsValid : IsValid (record (bump written) { writer = false })
released-IsValid = record { fits = omega arith; writing = λ e. cc; resting = λ _. refl }

upgrade_exclusive_example :
    Hybrid.optimistic_upgrade_to_exclusive quiet 4 fresh
    ≡ returns (true, record { version = 6; writer = true; readers = 0 })
upgrade_exclusive_example = upgrade_exclusive_lem quiet 4 fresh refl fresh-IsValid fresh-IsValid

four_unlatched : is_latched 4 ≡ false
unfolding is_latched
four_unlatched = refl
