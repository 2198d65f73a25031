-- ===== src/Lock/Optimistic/Validate.antt =====
-- When an optimistic reader accepts what it read: `unlock` with `V2` and `CRC`, `lock` with `CRC`.
use rdma_synchronization.Common.{
  ℕ, ◌+◌, ◌-◌, ◌*◌, ◌/◌, ◌%◌, ◌≤◌, ◌≡◌, refl, ap, ◌∙◌, Bool, true, some, List, ◌∷◌, ◌==◌,
  if◌then◌else◌, arith, Bool-cases, inl, inr,
}
use rdma_synchronization.Rdma.Request.{post_read}
use rdma_synchronization.Rdma.Memory.{Memory, copy, copy_inside}
use rdma_synchronization.Rdma.Client.{
  Nic, IsVerbs, Client, Poll, ok, restart, wait_completion, wait_list, read_lem,
}
use rdma_synchronization.Lock.Config.{Config, crc, v2, LockType, footer, w_unlocked}
use rdma_synchronization.Lock.Exclusive.{lock_word}
use rdma_synchronization.Lock.Optimistic.{
  OptimisticLock, check_lock, version_address, validate, unlock_reads, unlock,
}

module _ (nic : Nic) (verbs : IsVerbs nic) (others : ℕ → Memory → Memory) (config : Config) where
  -- The client after one more signaled read and the wait for it.
  unfoldable pub after_read : ℕ → ℕ → ℕ → OptimisticLock → Client → List Poll → Client
  after_read at from bytes t c rest =
      let r = others c.now c.world.remote in
      record {
        world = record {
          local =
              copy (bytes / 8) (nic.view (post_read at t.rctx true from bytes 0) r) from
                c.world.local at;
          remote = r;
        };
        polls = rest;
        now = c.now + 1;
      }

  -- `unlock` with one word of the version read again: it returns the two versions where they are the
  -- same and the lock word of the buffer is free, and restarts in all other cases.
  pub crc_unlock_lem :
      (lt : LockType) (t : OptimisticLock) (prev : ℕ) (c : Client) (status : Bool)
      (more : List Bool) (rest : List Poll)
      → c.polls ≡ some (status ∷ more) ∷ rest
      → unlock nic others config crc lt t prev c ≡ (
          let c' = after_read t.tuple_buffer t.remote_address 8 t c rest in
          if prev == c'.world.local t.tuple_buffer
          then if c'.world.local (t.tuple_buffer + 8 * lock_word lt t.bytes) == w_unlocked
            then ok (prev, c'.world.local t.tuple_buffer) c'
            else restart c'
          else restart c')
  unfolding unlock unlock_reads validate version_address check_lock after_read wait_completion
      wait_list
  crc_unlock_lem lt t prev c status more rest polls = rw (read_lem nic others verbs) (
      rw polls (elim (Bool-cases (prev == same)) [
        | inl e ↦
            rw e (elim (Bool-cases (free == w_unlocked)) [ inl f ↦ rw f refl | inr f ↦ rw f refl ])
        | inr e ↦ rw e refl
      ]))
    where
      c' : Client
      c' = after_read t.tuple_buffer t.remote_address 8 t c rest

      same : ℕ
      same = c'.world.local t.tuple_buffer

      free : ℕ
      free = c'.world.local (t.tuple_buffer + 8 * lock_word lt t.bytes)

  v2_unlock_lem :
      (t : OptimisticLock) (prev : ℕ) (c : Client) (status : Bool) (more : List Bool)
      (rest : List Poll)
      → c.polls ≡ some (status ∷ more) ∷ rest
      → unlock nic others config v2 footer t prev c ≡ (
          let at = version_address nic others config v2 footer t in
          let c' = after_read at (t.remote_address + (t.bytes - 16)) 16 t c rest in
          if prev == c'.world.local at
          then if c'.world.local (t.tuple_buffer + 8 * (t.bytes / 8 - 1)) == w_unlocked
            then ok (prev, c'.world.local at) c'
            else restart c'
          else restart c')
  unfolding unlock unlock_reads validate version_address check_lock after_read wait_completion
      wait_list
  v2_unlock_lem t prev c status more rest polls = rw (read_lem nic others verbs) (
      rw polls (elim (Bool-cases (prev == same)) [
        | inl e ↦
            rw e (elim (Bool-cases (free == w_unlocked)) [ inl f ↦ rw f refl | inr f ↦ rw f refl ])
        | inr e ↦ rw e refl
      ]))
    where
      at : ℕ
      at = version_address nic others config v2 footer t

      c' : Client
      c' = after_read at (t.remote_address + (t.bytes - 16)) 16 t c rest

      same : ℕ
      same = c'.world.local at

      free : ℕ
      free = c'.world.local (t.tuple_buffer + 8 * (t.bytes / 8 - 1))

  -- `unlock` under `V2` with the lock in the footer, when the poll reports a completion: it returns
  -- exactly if the version that it reads again is the one that `lock` saw and the lock word behind it
  -- is free, and restarts in all other cases.
  pub v2_footer-validates :
      (t : OptimisticLock) (prev : ℕ) (c : Client) (status : Bool) (more : List Bool)
      (rest : List Poll)
      → c.polls ≡ some (status ∷ more) ∷ rest
      → t.bytes % 8 ≡ 0
      → 16 ≤ t.bytes
      → unlock nic others config v2 footer t prev c ≡ (
          let at = version_address nic others config v2 footer t in
          let from = t.remote_address + (t.bytes - 16) in
          let seen = nic.view (post_read at t.rctx true from 16 0) (others c.now c.world.remote) in
          let c' = after_read at from 16 t c rest in
          if prev == seen from
          then if seen (from + 8) == w_unlocked then ok (prev, seen from) c' else restart c'
          else restart c')
  unfolding after_read version_address
  v2_footer-validates t prev c status more rest polls whole size =
      v2_unlock_lem t prev c status more rest polls ∙ rw (version_word, latch_word) refl
    where
      at : ℕ
      at = version_address nic others config v2 footer t

      from : ℕ
      from = t.remote_address + (t.bytes - 16)

      seen : Memory
      seen = nic.view (post_read at t.rctx true from 16 0) (others c.now c.world.remote)

      l : Memory
      l = c.world.local

      version_word : copy (16 / 8) seen from l at at ≡ seen from
      version_word =
          ap (copy 2 seen from l at) (omega arith)
          ∙ copy_inside 2 seen from l at 0 (omega arith)
          ∙ ap seen (omega arith)

      latch_word :
          copy (16 / 8) seen from l at (t.tuple_buffer + 8 * (t.bytes / 8 - 1)) ≡ seen (from + 8)
      latch_word =
          ap (copy 2 seen from l at) (omega arith) ∙ copy_inside 2 seen from l at 1 (omega arith)
