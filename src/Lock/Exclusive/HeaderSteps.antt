-- ===== src/Lock/Exclusive/HeaderSteps.antt =====
-- The write and the fetch-and-add of `HeaderLock::unlock` under `V2` as steps of a writer of the tuple.
use rdma_synchronization.Common.{
  ℕ, zero, suc, ◌+◌, ◌*◌, ◌/◌, ◌%◌, ◌^◌, ◌<◌, ◌≤◌, ◌≡◌, ◌⊎◌, Bool, true, some, List, ◌∷◌, refl, sym,
  ◌∙◌, ap, arith, ◌==◌,
}
use rdma_synchronization.Rdma.Memory.{Memory, store, copy, copy_inside}
use rdma_synchronization.Rdma.Client.{
  Nic, IsVerbs, Client, Poll, ok, Returns, Returns-map, M, ◌>>◌, modify, then_ok,
}
use rdma_synchronization.Lock.Config.{Config, v2, header, w_locked, w_unlocked, minus_one}
use rdma_synchronization.Lock.Exclusive.{
  ExclusiveLock, lock, get_lock_position, unlock, version_word, generate_proof,
}
use rdma_synchronization.Lock.Exclusive.Update.{
  header_unlock_lem, proved, lock_lem, after_lock, tuple_read,
}
use rdma_synchronization.Lock.Optimistic.Writers.{State, idle, writing, bumped}
use rdma_synchronization.Lock.Optimistic.Header.Writers.{
  latch_at, Move, acquire, write, bump, release, elsewhere, SameTuple, Moves, here, next, append,
}

module _ (base k : ℕ) where
  store_at :
      (s : State) (i v dst : ℕ)
      → dst ≡ base + 16 + 8 * i
      → s.phase ≡ bumped
      → i < k
      → Move base k s (record s { memory = store s.memory dst v })
  store_at s i v dst e p lt = rw e (write s i v p lt)

  free_at :
      (s : State) (v : ℕ)
      → s.phase ≡ bumped
      → v ≡ w_unlocked
      → Move base k s (record s { memory = store s.memory (latch_at base k) v; phase = idle })
  free_at s v p f = rw f (release s p)

  -- The words from number `i` on, in the order of their addresses.
  copy-Moves :
      (n i : ℕ) (l : Memory) (src dst : ℕ) (s : State)
      → i + n ≡ k
      → dst ≡ base + 16 + 8 * i
      → s.phase ≡ bumped
      → Moves base k s (record s { memory = copy n l src s.memory dst })
  unfolding copy
  copy-Moves zero i l src dst s e at p = here
  copy-Moves (suc n) i l src dst s e at p =
      append base k (next here (store_at s i (l src) dst at p (omega arith))) (
        copy-Moves n (i + 1) l (src + 8) (dst + 8)
          (record s { memory = store s.memory dst (l src) }) (omega arith) (omega arith) p)

  -- The write of a whole tuple, the version first and then the lock word, which stays as it is.
  tuple-Moves :
      (n : ℕ) (l r : Memory) (src : ℕ) (s : State)
      → n ≡ suc (suc k)
      → s.memory ≡ r
      → s.phase ≡ writing
      → s.memory (latch_at base k) ≡ w_locked
      → l src ≡ (s.memory base + 1) % 2 ^ 64
      → l (src + 8) ≡ w_locked
      → Moves base k s
          (record { memory = copy n l src r base; phase = bumped; bumps = s.bumps + 1 })
  unfolding copy
  tuple-Moves n l r src s all e p taken version locked =
      rw (all, ← e)
        (append base k
          (next (next here counted) (elsewhere s1 (store s1.memory (base + 8) (l (src + 8))) same))
          (copy-Moves k 0 l (src + 8 + 8) (base + 8 + 8) _ (omega arith) (omega arith) refl))
    where
      s1 : State
      s1 = record { memory = store s.memory base (l src); phase = bumped; bumps = s.bumps + 1 }

      counted : Move base k s s1
      counted = rw version (bump s p)

      same : SameTuple base k s1.memory (store s1.memory (base + 8) (l (src + 8)))
      same = (ground arith, ground (arith, taken, locked), λ i lt. ground arith)

module _ (nic : Nic) (verbs : IsVerbs nic) (others : ℕ → Memory → Memory) (config : Config) where
  -- `unlock` under `V2` with the lock in the header, by a holder of the lock whose buffer has the
  -- version and the lock word of the tuple, while the others leave a locked tuple alone: it returns, and
  -- all of it is steps of writers that end with one more version and the lock free.
  header_unlock-Moves :
      (t : ExclusiveLock) (k : ℕ) (c : Client) (s : State)
      → t.bytes ≡ 8 * k + 16
      → s.memory ≡ others c.now c.world.remote
      → s.phase ≡ writing
      → s.memory (latch_at t.remote_address k) ≡ w_locked
      → c.world.local t.tuple_buffer ≡ s.memory t.remote_address
      → c.world.local (t.tuple_buffer + 8) ≡ w_locked
      → ((j : ℕ) (m : Memory)
          → m (latch_at t.remote_address k) ≡ w_locked
          → SameTuple t.remote_address k m (others j m))
      → Returns (unlock nic others config v2 header t c) (λ c'.
        Moves t.remote_address k s
          (record { memory = c'.world.remote; phase = idle; bumps = s.bumps + 1 }))
  unfolding proved generate_proof version_word
  header_unlock-Moves t k c s size m p taken same locked guarded =
      rw (header_unlock_lem nic verbs others config v2 t c) (
        next (next written (elsewhere _ r kept)) (
          free_at base k _ ((r (base + 8) + minus_one) % 2 ^ 64) refl
            (ground (arith, kept.1, still))))
    where
      base : ℕ
      base = t.remote_address

      l : Memory
      l = proved nic verbs others config v2 header t c.world.local

      w : Memory
      w = copy (t.bytes / 8) l t.tuple_buffer (others c.now c.world.remote) base

      written : Moves base k s (record { memory = w; phase = bumped; bumps = s.bumps + 1 })
      written =
          tuple-Moves base k (t.bytes / 8) l _ t.tuple_buffer s (omega arith) m p taken
            (ground (arith, same)) (ground (arith, locked))

      still : w (latch_at base k) ≡ w_locked
      still =
          ap w (omega arith)
          ∙ copy_inside (t.bytes / 8) l t.tuple_buffer _ base 1 (omega arith)
          ∙ ground (arith, locked)

      r : Memory
      r = others (c.now + 1) w

      kept : SameTuple base k w r
      kept = guarded (c.now + 1) w still

  abbrev pub header_update : ExclusiveLock → (Memory → Memory) → M (Unit {0})
  header_update t f =
      lock nic others config header t >> (modify f >> unlock nic others config v2 header t)

  -- A client that finds the lock in the header free, changes words of the tuple in its buffer other than
  -- the version and the lock word, and unlocks, while the other clients leave a locked tuple alone: the
  -- calls return, and they and the other clients' changes are steps of writers that end with one more
  -- version and the lock free.
  pub update-Moves :
      (t : ExclusiveLock) (k : ℕ) (f : Memory → Memory) (c : Client) (s : State) (status : Bool)
      (more : List Bool) (rest : List Poll)
      → c.polls ≡ some (status ∷ more) ∷ rest
      → (t.lock_buffer < t.tuple_buffer) ⊎ (t.tuple_buffer + 8 * (t.bytes / 8) ≤ t.lock_buffer)
      → t.bytes ≡ 8 * k + 16
      → s.memory ≡ others c.now c.world.remote
      → s.memory (latch_at t.remote_address k) ≡ w_unlocked
      → ((j : ℕ) (m : Memory)
          → m (latch_at t.remote_address k) ≡ w_locked
          → SameTuple t.remote_address k m (others j m))
      → ((m : Memory)
          → m (latch_at t.remote_address k) ≡ w_locked
          → SameTuple t.remote_address k m (nic.view (tuple_read nic verbs others config t) m))
      → ((m : Memory)
          → (f m t.tuple_buffer ≡ m t.tuple_buffer)
            × (f m (t.tuple_buffer + 8) ≡ m (t.tuple_buffer + 8)))
      → Returns (header_update t f c) (λ c'.
        Moves t.remote_address k s
          (record { memory = c'.world.remote; phase = idle; bumps = s.bumps + 1 }))
  unfolding get_lock_position after_lock
  update-Moves t k f c s status more rest polls apart size m free guarded sees f_kept =
      rw (then_ok (lock nic others config header t) _ locked) (
        Returns-map (unlock nic others config v2 header t c2) _ _ (λ c' r. append base k begun r)
          (header_unlock-Moves t k c2 s2 size refl refl taken_again version latch guarded))
    where
      base : ℕ
      base = t.remote_address

      is_open : (others c.now c.world.remote (get_lock_position header t) == w_unlocked) ≡ true
      is_open = rw (← m) (ground (arith, free))

      c1 : Client
      c1 = after_lock nic verbs others config (get_lock_position header t) t c rest

      locked : lock nic others config header t c ≡ ok tt c1
      locked = lock_lem nic verbs others config header t c status more rest polls apart ∙ rw is_open

      taken : State
      taken = record s { memory = store s.memory (latch_at base k) w_locked; phase = writing }

      first : c1.world.remote ≡ others (c.now + 1) taken.memory
      first = rw (is_open, ← m) refl

      c2 : Client
      c2 = record c1 { world = record c1.world { local = f c1.world.local } }

      s2 : State
      s2 = record taken { memory = others c1.now c1.world.remote }

      kept : SameTuple base k taken.memory c1.world.remote
      kept = rw first (guarded (c.now + 1) taken.memory (ground arith))

      is_taken : c1.world.remote (latch_at base k) ≡ w_locked
      is_taken = kept.1 ∙ ground arith

      left : SameTuple base k c1.world.remote s2.memory
      left = guarded c1.now c1.world.remote is_taken

      seen :
          SameTuple base k c1.world.remote
            (nic.view (tuple_read nic verbs others config t) c1.world.remote)
      seen = sees c1.world.remote is_taken

      s1 : State
      s1 = record taken { memory = c1.world.remote }

      begun : Moves base k s s2
      begun =
          next (next (next here (acquire s free)) (elsewhere taken _ kept)) (elsewhere s1 _ left)

      taken_again : s2.memory (latch_at base k) ≡ w_locked
      taken_again = left.1 ∙ is_taken

      read :
          (i : ℕ)
          → i < t.bytes / 8
          → c1.world.local (t.tuple_buffer + 8 * i)
            ≡ nic.view (tuple_read nic verbs others config t) c1.world.remote (base + 8 * i)
      read i lt = copy_inside (t.bytes / 8) _ base _ t.tuple_buffer i lt

      version : f c1.world.local t.tuple_buffer ≡ s2.memory base
      version =
          (f_kept c1.world.local).0
          ∙ ap c1.world.local (omega arith)
          ∙ read 0 (omega arith)
          ∙ ap (nic.view (tuple_read nic verbs others config t) c1.world.remote) (omega arith)
          ∙ seen.0
          ∙ sym left.0

      latch : f c1.world.local (t.tuple_buffer + 8) ≡ w_locked
      latch =
          (f_kept c1.world.local).1
          ∙ ap c1.world.local (omega arith)
          ∙ read 1 (omega arith)
          ∙ ap (nic.view (tuple_read nic verbs others config t) c1.world.remote) (omega arith)
          ∙ seen.1
          ∙ is_taken
