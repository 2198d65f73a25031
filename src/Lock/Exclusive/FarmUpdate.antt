-- ===== src/Lock/Exclusive/FarmUpdate.antt =====
-- What a writer of the exclusive lock publishes under `FaRM`.
use rdma_synchronization.Common.{
  ℕ, ◌+◌, ◌-◌, ◌*◌, ◌/◌, ◌%◌, ◌<◌, ◌≡◌, refl, ap, ◌∙◌, ◌==◌, if◌then◌else◌, arith, eq→==, ne→==,
  ℕ_discrete,
}
use rdma_synchronization.Common.Word.{add_u64}
use rdma_synchronization.Rdma.Memory.{Memory}
use rdma_synchronization.Rdma.Client.{Nic, IsVerbs, Client, Returns, Returns-map}
use rdma_synchronization.Lock.Config.{Config, farm, LockType, header, footer, w_locked, w_unlocked}
use rdma_synchronization.Lock.Farm.{increment, generate}
use rdma_synchronization.Lock.Farm.Snapshot.{next_version}
use rdma_synchronization.Lock.Exclusive.{
  ExclusiveLock, lock_word, get_lock_position, unlock, generate_proof, version_word,
}
use rdma_synchronization.Lock.Exclusive.Update.{
  proved, header_unlock-publishes, footer_unlock-publishes,
}

module _ (nic : Nic) (verbs : IsVerbs nic) (others : ℕ → Memory → Memory) (config : Config)
    (t : ExclusiveLock) (v : ℕ) (c : Client)
    (heads : (j : ℕ)
      → j < t.bytes / 8
      → j % 8 ≡ 0
      → c.world.local (t.tuple_buffer + 8 * j) ≡ v) where
  proved_word :
      (lt : LockType) (i : ℕ)
      → i < t.bytes / 8
      → proved nic verbs others config farm lt t c.world.local (t.tuple_buffer + 8 * i)
        ≡ (if i % 8 == 0 then add_u64 v 1 else c.world.local (t.tuple_buffer + 8 * i))
  unfolding proved generate_proof version_word
  proved_word header i lt =
      ap
        (λ (a : ℕ).
          increment (generate t.tuple_buffer t.bytes c.world.local) a (t.tuple_buffer + 8 * i))
        (omega arith)
      ∙ next_version t.bytes t.tuple_buffer v c.world.local i lt heads
  proved_word footer i lt =
      ap
        (λ (a : ℕ).
          increment (generate t.tuple_buffer t.bytes c.world.local) a (t.tuple_buffer + 8 * i))
        (omega arith)
      ∙ next_version t.bytes t.tuple_buffer v c.world.local i lt heads

  -- `unlock` under `FaRM`, with a tuple of whole lines in the buffer that has one version at all their
  -- heads and is locked, while the others leave the tuple alone between the write and the
  -- fetch-and-add: it returns, and the tuple has the next version at all heads, the lock word free, and
  -- the buffer's words elsewhere.
  pub farm_unlock_lem :
      (lt : LockType) (i : ℕ)
      → t.bytes % 64 ≡ 0
      → i < t.bytes / 8
      → c.world.local (t.tuple_buffer + 8 * lock_word lt t.bytes) ≡ w_locked
      → ((m : Memory) (j : ℕ)
          → j < t.bytes / 8
          → others (c.now + 1) m (t.remote_address + 8 * j) ≡ m (t.remote_address + 8 * j))
      → Returns (unlock nic others config farm lt t c) (λ c'.
        c'.world.remote (t.remote_address + 8 * i) ≡ (
          if i == lock_word lt t.bytes
          then w_unlocked
          else (if i % 8 == 0 then add_u64 v 1 else c.world.local (t.tuple_buffer + 8 * i))))
  unfolding get_lock_position
  farm_unlock_lem header i whole lt locked leaves = elim (ℕ_discrete i 1) [
    | yes same ↦
        Returns-map (unlock nic others config farm header t c) _ _
          (λ c' r. ap c'.world.remote (omega (arith, same)) ∙ r.1 ∙ rw (eq→== i 1 same) refl)
          (header_unlock-publishes nic verbs others config farm t c 2 leaves taken (omega arith)
            (omega arith) (λ e. absurd (omega arith)))
    | no other ↦
        Returns-map (unlock nic others config farm header t c) _ _
          (λ c' r. r.0 ∙ proved_word header i lt ∙ rw (ne→== i 1 other) refl)
          (header_unlock-publishes nic verbs others config farm t c i leaves taken lt (omega arith)
            other)
  ]
    where
      taken :
          proved nic verbs others config farm header t c.world.local (t.tuple_buffer + 8) ≡ w_locked
      taken =
          ap (proved nic verbs others config farm header t c.world.local) (omega arith)
          ∙ proved_word header 1 (omega arith)
          ∙ locked
  farm_unlock_lem footer i whole lt locked leaves = elim (ℕ_discrete i (t.bytes / 8 - 1)) [
    | yes same ↦
        Returns-map (unlock nic others config farm footer t c) _ _
          (λ c' r. ap c'.world.remote (omega (arith, same)) ∙ r.1 ∙ rw (eq→== i _ same) refl)
          (footer_unlock-publishes nic verbs others config farm t c 0 (omega arith) (omega arith))
    | no other ↦
        Returns-map (unlock nic others config farm footer t c) _ _
          (λ c' r. r.0 ∙ proved_word footer i lt ∙ rw (ne→== i _ other) refl)
          (footer_unlock-publishes nic verbs others config farm t c i (omega arith) (omega arith))
  ]
