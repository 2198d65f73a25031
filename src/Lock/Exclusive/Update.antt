-- ===== src/Lock/Exclusive/Update.antt =====
-- What `ExclusiveLock` does to the memory of the storage node.
use rdma_synchronization.Common.{
  ℕ, ◌+◌, ◌-◌, ◌*◌, ◌/◌, ◌%◌, ◌^◌, ◌<◌, ◌≤◌, ◌≡◌, ◌≢◌, ◌⊎◌, inl, inr, refl, ◌∙◌, ap, Bool, true,
  some, List, ◌∷◌, ◌==◌, if◌then◌else◌, arith, Bool-cases,
}
use rdma_synchronization.Rdma.Request.{WorkRequest, post_read}
use rdma_synchronization.Rdma.Memory.{Memory, store, copy, copy_inside, copy_outside}
use rdma_synchronization.Rdma.Client.{
  Nic, IsVerbs, Client, Poll, ok, restart, Returns, wait_completion, wait_list, cas_lem, faa_lem,
  read_lem, write_lem,
}
use rdma_synchronization.Lock.Config.{
  Config, Consistency, LockType, header, footer, w_locked, w_unlocked, minus_one,
}
use rdma_synchronization.Lock.Farm.{increment}
use rdma_synchronization.Lock.Exclusive.{
  ExclusiveLock, get_lock_position, abstract_lock, footer_unlock, header_unlock, unlock_by, lock,
  unlock, generate_proof, version_word,
}

module _ (nic : Nic) (verbs : IsVerbs nic) (others : ℕ → Memory → Memory) (config : Config) where
  abbrev pub tuple_read : ExclusiveLock → WorkRequest
  tuple_read t = post_read t.tuple_buffer t.rctx true t.remote_address t.bytes 0

  -- The client after the two requests of `lock` and its wait.
  unfoldable pub after_lock : ℕ → ExclusiveLock → Client → List Poll → Client
  after_lock pos t c rest =
      let r0 = others c.now c.world.remote in
      let l1 = store c.world.local t.lock_buffer (r0 pos) in
      let r1 = if r0 pos == w_unlocked then store r0 pos w_locked else r0 in
      let r2 = others (c.now + 1) r1 in
      record {
        world = record {
          local =
              copy (t.bytes / 8) (nic.view (tuple_read t) r2) t.remote_address l1 t.tuple_buffer;
          remote = r2;
        };
        polls = rest;
        now = c.now + 1 + 1;
      }

  -- The word that the compare-and-swap fetched survives the read of the tuple.
  fetched :
      (n src tuple_buffer lock_buffer v : ℕ) (r l : Memory)
      → (lock_buffer < tuple_buffer) ⊎ (tuple_buffer + 8 * n ≤ lock_buffer)
      → copy n r src (store l lock_buffer v) tuple_buffer lock_buffer ≡ v
  fetched n src tuple_buffer lock_buffer v r l apart =
      copy_outside n r src (store l lock_buffer v) tuple_buffer lock_buffer apart ∙ ground arith

  abstract_lock_lem :
      (pos : ℕ) (t : ExclusiveLock) (c : Client) (status : Bool) (more : List Bool)
      (rest : List Poll)
      → c.polls ≡ some (status ∷ more) ∷ rest
      → (t.lock_buffer < t.tuple_buffer) ⊎ (t.tuple_buffer + 8 * (t.bytes / 8) ≤ t.lock_buffer)
      → abstract_lock nic others config pos t c ≡ (
          if others c.now c.world.remote pos == w_unlocked
          then ok tt (after_lock pos t c rest)
          else restart (after_lock pos t c rest))
  unfolding abstract_lock after_lock wait_completion wait_list
  abstract_lock_lem pos t c status more rest polls apart =
      rw (cas_lem nic others verbs, read_lem nic others verbs)
        (rw (polls) (
          rw
            (fetched (t.bytes / 8) t.remote_address t.tuple_buffer t.lock_buffer
              (others c.now c.world.remote pos) _ c.world.local apart)
            (elim (Bool-cases (others c.now c.world.remote pos == w_unlocked)) [
              | inl e ↦ rw (e) refl
              | inr e ↦ rw (e) refl
            ])))

  -- If the poll reports a completion, `lock` ends: it returns if the lock word was free when the
  -- compare-and-swap ran, and restarts if not, with the tuple in the buffer either way.
  pub lock_lem :
      (lt : LockType) (t : ExclusiveLock) (c : Client) (status : Bool) (more : List Bool)
      (rest : List Poll)
      → c.polls ≡ some (status ∷ more) ∷ rest
      → (t.lock_buffer < t.tuple_buffer) ⊎ (t.tuple_buffer + 8 * (t.bytes / 8) ≤ t.lock_buffer)
      → lock nic others config lt t c ≡ (
          if others c.now c.world.remote (get_lock_position lt t) == w_unlocked
          then ok tt (after_lock (get_lock_position lt t) t c rest)
          else restart (after_lock (get_lock_position lt t) t c rest))
  unfolding lock
  lock_lem lt t c status more rest polls apart =
      abstract_lock_lem (get_lock_position lt t) t c status more rest polls apart

  -- The words that `unlock` writes, before the lock word is cleared.
  unfoldable pub proved : Consistency → LockType → ExclusiveLock → Memory → Memory
  proved cons lt t m =
      increment (generate_proof config cons lt t.tuple_buffer t.bytes m)
        (t.tuple_buffer + 8 * version_word cons lt t.bytes)

  -- The memory of the storage node when the write of the tuple runs.
  abbrev seen : Client → Memory
  seen c = others c.now c.world.remote

  pub footer_unlock_lem :
      (cons : Consistency) (t : ExclusiveLock) (c : Client)
      → unlock nic others config cons footer t c ≡ (
          let l =
            store (proved cons footer t c.world.local) (t.tuple_buffer + 8 * (t.bytes / 8 - 1)) 0 in
          ok tt (record c {
            world = record {
              local = l;
              remote = copy (t.bytes / 8) l t.tuple_buffer (seen c) t.remote_address;
            };
            now = c.now + 1;
          }))
  unfolding unlock unlock_by footer_unlock proved
  footer_unlock_lem cons t c = rw (write_lem nic others verbs) refl

  pub header_unlock_lem :
      (cons : Consistency) (t : ExclusiveLock) (c : Client)
      → unlock nic others config cons header t c ≡ (
          let l = proved cons header t c.world.local in
          let r =
            others (c.now + 1) (copy (t.bytes / 8) l t.tuple_buffer (seen c) t.remote_address) in
          let word = t.remote_address + 8 in
          ok tt (record c {
            world = record {
              local = store l t.lock_buffer (r word);
              remote = store r word ((r word + minus_one) % 2 ^ 64);
            };
            now = c.now + 1 + 1;
          }))
  unfolding unlock unlock_by header_unlock get_lock_position proved
  header_unlock_lem cons t c = rw (write_lem nic others verbs, faa_lem nic others verbs) refl

  -- `unlock` with the lock in the footer returns; it stores each word of the tuple with its new
  -- version and consistency proof, and 0 for the lock.
  pub footer_unlock-publishes :
      (cons : Consistency) (t : ExclusiveLock) (c : Client) (i : ℕ)
      → t.bytes % 8 ≡ 0
      → i < t.bytes / 8 - 1
      → Returns (unlock nic others config cons footer t c) (λ c'.
        (c'.world.remote (t.remote_address + 8 * i)
          ≡ proved cons footer t c.world.local (t.tuple_buffer + 8 * i))
        × (c'.world.remote (get_lock_position footer t) ≡ w_unlocked))
  unfolding get_lock_position
  footer_unlock-publishes cons t c i whole h = rw (footer_unlock_lem cons t c) (kept, free)
    where
      n : ℕ
      n = t.bytes / 8

      l : Memory
      l = store (proved cons footer t c.world.local) (t.tuple_buffer + 8 * (t.bytes / 8 - 1)) 0

      kept :
          copy n l t.tuple_buffer (seen c) t.remote_address (t.remote_address + 8 * i)
          ≡ proved cons footer t c.world.local (t.tuple_buffer + 8 * i)
      kept = copy_inside n l t.tuple_buffer (seen c) t.remote_address i (omega arith) ∙ ground arith

      last : t.remote_address + (t.bytes - 8) ≡ t.remote_address + 8 * (n - 1)
      last = omega arith

      free :
          copy n l t.tuple_buffer (seen c) t.remote_address (t.remote_address + (t.bytes - 8)) ≡ 0
      free =
          ap (copy n l t.tuple_buffer (seen c) t.remote_address) last
          ∙ copy_inside n l t.tuple_buffer (seen c) t.remote_address (n - 1) (omega arith)
          ∙ ground arith

  -- `unlock` with the lock in the header returns, and does so too, if the buffer's lock word is 1 and
  -- no other client writes the tuple between the write and the fetch-and-add of -1.
  pub header_unlock-publishes :
      (cons : Consistency) (t : ExclusiveLock) (c : Client) (i : ℕ)
      → ((m : Memory) (j : ℕ)
          → j < t.bytes / 8
          → others (c.now + 1) m (t.remote_address + 8 * j) ≡ m (t.remote_address + 8 * j))
      → proved cons header t c.world.local (t.tuple_buffer + 8) ≡ w_locked
      → i < t.bytes / 8
      → 1 < t.bytes / 8
      → i ≢ 1
      → Returns (unlock nic others config cons header t c) (λ c'.
        (c'.world.remote (t.remote_address + 8 * i)
          ≡ proved cons header t c.world.local (t.tuple_buffer + 8 * i))
        × (c'.world.remote (get_lock_position header t) ≡ w_unlocked))
  unfolding get_lock_position
  header_unlock-publishes cons t c i leaves locked h two ne =
      rw (header_unlock_lem cons t c) (kept, free)
    where
      l : Memory
      l = proved cons header t c.world.local

      written : Memory
      written = copy (t.bytes / 8) l t.tuple_buffer (seen c) t.remote_address

      r : Memory
      r = others (c.now + 1) written

      word : (j : ℕ) → j < t.bytes / 8 → r (t.remote_address + 8 * j) ≡ l (t.tuple_buffer + 8 * j)
      word j below =
          leaves written j below
          ∙ copy_inside (t.bytes / 8) l t.tuple_buffer (seen c) t.remote_address j below

      next : ℕ
      next = t.remote_address + 8

      kept :
          store r next ((r next + minus_one) % 2 ^ 64) (t.remote_address + 8 * i)
          ≡ l (t.tuple_buffer + 8 * i)
      kept = ground (arith, word i h)

      one : r next ≡ w_locked
      one = word 1 two ∙ locked

      free : store r next ((r next + minus_one) % 2 ^ 64) next ≡ 0
      free = ground (arith, one)
