-- ===== src/Lock/Exclusive/Steps.antt =====
-- The write of `FooterLock::unlock` under `V2` as steps of a writer of the tuple.
use rdma_synchronization.Common.{
  ℕ, zero, suc, ◌+◌, ◌-◌, ◌*◌, ◌/◌, ◌%◌, ◌^◌, ◌<◌, ◌≤◌, ◌≡◌, ◌⊎◌, Bool, true, some, List, ◌∷◌, refl,
  sym, ◌∙◌, ap, arith, ◌==◌,
}
use rdma_synchronization.Rdma.Memory.{Memory, store, copy, copy_inside}
use rdma_synchronization.Rdma.Client.{
  Nic, IsVerbs, Client, Poll, ok, Returns, Returns-map, M, ◌>>◌, modify, then_ok,
}
use rdma_synchronization.Lock.Config.{Config, v2, footer, w_locked, w_unlocked}
use rdma_synchronization.Lock.Exclusive.{
  ExclusiveLock, lock, get_lock_position, unlock, version_word, generate_proof,
}
use rdma_synchronization.Lock.Exclusive.Update.{
  footer_unlock_lem, proved, lock_lem, after_lock, tuple_read,
}
use rdma_synchronization.Lock.Optimistic.Writers.{
  State, idle, writing, bumped, version_at, lock_at, Step, acquire, write, bump, release, elsewhere,
  SameTuple, Reach, here, next, append,
}

module _ (base k : ℕ) where
  write_at :
      (s : State) (i v dst : ℕ)
      → dst ≡ base + 8 * i
      → s.phase ≡ writing
      → i < k
      → Step base k s (record s { memory = store s.memory dst v })
  write_at s i v dst e p lt = rw e (write s i v p lt)

  bump_at :
      (s : State) (v dst : ℕ)
      → dst ≡ version_at base k
      → s.phase ≡ writing
      → v ≡ (s.memory (version_at base k) + 1) % 2 ^ 64
      → Step base k s
          (record { memory = store s.memory dst v; phase = bumped; bumps = s.bumps + 1 })
  bump_at s v dst e p f = rw (e, f) (bump s p)

  release_at :
      (s : State) (v dst : ℕ)
      → dst ≡ lock_at base k
      → s.phase ≡ bumped
      → v ≡ w_unlocked
      → Step base k s (record s { memory = store s.memory dst v; phase = idle })
  release_at s v dst e p f = rw (e, f) (release s p)

  -- The words from number `i` on, in the order of their addresses.
  copy-Reach :
      (n i : ℕ) (l : Memory) (src dst : ℕ) (s : State)
      → i + n ≡ k
      → dst ≡ base + 8 * i
      → s.phase ≡ writing
      → l (src + 8 * n) ≡ (s.memory (version_at base k) + 1) % 2 ^ 64
      → l (src + 8 * n + 8) ≡ w_unlocked
      → Reach base k s (record {
        memory = copy (suc (suc n)) l src s.memory dst;
        phase = idle;
        bumps = s.bumps + 1;
      })
  unfolding copy
  copy-Reach zero i l src dst s e at p v free =
      next (next here (bump_at s (l src) dst (omega arith) p (ap l (omega arith) ∙ v)))
        (release_at _ (l (src + 8)) (dst + 8) (omega arith) refl (ap l (omega arith) ∙ free))
  copy-Reach (suc n) i l src dst s e at p v free =
      append base k (next here (write_at s i (l src) dst at p (omega arith))) (
        copy-Reach n (i + 1) l (src + 8) (dst + 8)
          (record s { memory = store s.memory dst (l src) }) (omega arith) (omega arith) p
          (ap l (omega arith) ∙ v ∙ ground arith) (ap l (omega arith) ∙ free))

  -- All words of a tuple, over the memory that the write meets.
  write-Reach :
      (n : ℕ) (l r : Memory) (src : ℕ) (s : State)
      → n ≡ suc (suc k)
      → s.memory ≡ r
      → s.phase ≡ writing
      → l (src + 8 * k) ≡ (s.memory (version_at base k) + 1) % 2 ^ 64
      → l (src + 8 * k + 8) ≡ w_unlocked
      → Reach base k s (record { memory = copy n l src r base; phase = idle; bumps = s.bumps + 1 })
  write-Reach n l r src s all e p v free =
      rw (all, ← e) (copy-Reach k 0 l src base s (omega arith) (omega arith) p v free)

module _ (nic : Nic) (verbs : IsVerbs nic) (others : ℕ → Memory → Memory) (config : Config) where
  -- `unlock` under `V2` with the lock in the footer, by a holder of the lock whose buffer has the
  -- version of the tuple: it returns, and what it does to the memory of the storage node are steps of
  -- a writer, word after word, that end with one more version and the lock free.
  pub unlock-Reach :
      (t : ExclusiveLock) (k : ℕ) (c : Client) (s : State)
      → t.bytes ≡ 8 * k + 16
      → s.memory ≡ others c.now c.world.remote
      → s.phase ≡ writing
      → c.world.local (t.tuple_buffer + 8 * k) ≡ s.memory (version_at t.remote_address k)
      → Returns (unlock nic others config v2 footer t c) (λ c'.
        Reach t.remote_address k s
          (record { memory = c'.world.remote; phase = idle; bumps = s.bumps + 1 }))
  unfolding proved generate_proof version_word
  unlock-Reach t k c s size m p same =
      rw (footer_unlock_lem nic verbs others config v2 t c)
        (write-Reach t.remote_address k (t.bytes / 8) l _ t.tuple_buffer s words m p version free)
    where
      l : Memory
      l =
          store (proved nic verbs others config v2 footer t c.world.local)
            (t.tuple_buffer + 8 * (t.bytes / 8 - 1)) 0

      words : t.bytes / 8 ≡ suc (suc k)
      words = omega arith

      at : (t.bytes - 16) / 8 ≡ k
      at = omega arith

      last : t.bytes / 8 - 1 ≡ k + 1
      last = omega arith

      version : l (t.tuple_buffer + 8 * k) ≡ (s.memory (version_at t.remote_address k) + 1) % 2 ^ 64
      version = ground (arith, at, last, same)

      free : l (t.tuple_buffer + 8 * k + 8) ≡ w_unlocked
      free = ground (arith, last)

  abbrev pub update : ExclusiveLock → (Memory → Memory) → M (Unit {0})
  update t f = lock nic others config footer t >> (modify f >> unlock nic others config v2 footer t)

  -- A client that finds the lock free, changes words of the tuple in its buffer other than the version,
  -- and unlocks, while the other clients leave a locked tuple alone: the calls return, and they and the
  -- other clients' changes are steps of writers that end with one more version and the lock free.
  pub update-Reach :
      (t : ExclusiveLock) (k : ℕ) (f : Memory → Memory) (c : Client) (s : State) (status : Bool)
      (more : List Bool) (rest : List Poll)
      → c.polls ≡ some (status ∷ more) ∷ rest
      → (t.lock_buffer < t.tuple_buffer) ⊎ (t.tuple_buffer + 8 * (t.bytes / 8) ≤ t.lock_buffer)
      → t.bytes ≡ 8 * k + 16
      → s.memory ≡ others c.now c.world.remote
      → s.memory (lock_at t.remote_address k) ≡ w_unlocked
      → ((j : ℕ) (m : Memory)
          → m (lock_at t.remote_address k) ≡ w_locked
          → SameTuple t.remote_address k m (others j m))
      → ((m : Memory)
          → m (lock_at t.remote_address k) ≡ w_locked
          → SameTuple t.remote_address k m (nic.view (tuple_read nic verbs others config t) m))
      → ((m : Memory) → f m (t.tuple_buffer + 8 * k) ≡ m (t.tuple_buffer + 8 * k))
      → Returns (update t f c) (λ c'.
        Reach t.remote_address k s
          (record { memory = c'.world.remote; phase = idle; bumps = s.bumps + 1 }))
  unfolding get_lock_position after_lock
  update-Reach t k f c s status more rest polls apart size m free guarded sees f_version =
      rw (then_ok (lock nic others config footer t) _ locked) (
        Returns-map (unlock nic others config v2 footer t c2) _ _ (λ c' r. append base k begun r)
          (unlock-Reach t k c2 s2 size refl refl buffered))
    where
      base : ℕ
      base = t.remote_address

      pos : get_lock_position footer t ≡ lock_at base k
      pos = omega arith

      is_open : (others c.now c.world.remote (get_lock_position footer t) == w_unlocked) ≡ true
      is_open = rw (pos, ← m) (ground (arith, free))

      c1 : Client
      c1 = after_lock nic verbs others config (get_lock_position footer t) t c rest

      locked : lock nic others config footer t c ≡ ok tt c1
      locked = lock_lem nic verbs others config footer t c status more rest polls apart ∙ rw is_open

      taken : State
      taken = record s { memory = store s.memory (lock_at base k) w_locked; phase = writing }

      first : c1.world.remote ≡ others (c.now + 1) taken.memory
      first = rw (is_open, pos, ← m) refl

      c2 : Client
      c2 = record c1 { world = record c1.world { local = f c1.world.local } }

      s2 : State
      s2 = record taken { memory = others c1.now c1.world.remote }

      kept : SameTuple base k taken.memory c1.world.remote
      kept i lt =
          ap (λ (r : Memory). r (base + 8 * i)) first
          ∙ guarded (c.now + 1) taken.memory (ground arith) i lt

      is_taken : c1.world.remote (lock_at base k) ≡ w_locked
      is_taken = ap c1.world.remote (omega arith) ∙ kept (k + 1) (omega arith) ∙ ground arith

      begun : Reach base k s s2
      begun =
          next (next here (acquire s free))
            (elsewhere taken _ (λ i lt. guarded c1.now c1.world.remote is_taken i lt ∙ kept i lt))

      buffered : f c1.world.local (t.tuple_buffer + 8 * k) ≡ s2.memory (version_at base k)
      buffered =
          f_version c1.world.local
          ∙ copy_inside (t.bytes / 8) _ base _ t.tuple_buffer k (omega arith)
          ∙ sees c1.world.remote is_taken k (omega arith)
          ∙ sym (guarded c1.now c1.world.remote is_taken k (omega arith))
