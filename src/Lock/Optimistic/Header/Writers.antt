-- ===== src/Lock/Optimistic/Header/Writers.antt =====
-- The writers of one tuple under `V2` with the lock in the header, as the memory of the storage node
-- shows them: the successful compare-and-swap of `AbstractLock::lock`, the words of the write of
-- `HeaderLock::unlock` in the order of their addresses, the version first, and its fetch-and-add.
use rdma_synchronization.Common.{ℕ, ◌+◌, ◌*◌, ◌%◌, ◌^◌, ◌<◌, ◌≤◌, ◌≡◌, refl, sym, ap, ◌∙◌, arith}
use rdma_synchronization.Rdma.Memory.{Memory, store}
use rdma_synchronization.Lock.Config.{w_locked, w_unlocked}
use rdma_synchronization.Lock.Optimistic.Writers.{State, Phase, idle, writing, bumped}

-- A tuple of `k` words behind its version and its lock.
module _ (base k : ℕ) where
  abbrev pub latch_at : ℕ
  latch_at = base + 8

  abbrev pub SameWords : Memory → Memory → Type 0
  SameWords m m' = (i : ℕ) → i < k → m' (base + 16 + 8 * i) ≡ m (base + 16 + 8 * i)

  -- Two memories with the same version, lock and words.
  abbrev pub SameTuple : Memory → Memory → Type 0
  SameTuple m m' = (m' base ≡ m base) × (m' latch_at ≡ m latch_at) × SameWords m m'

  pub data Move : State → State → Type 0 where
    acquire :
        (s : State)
        → s.memory latch_at ≡ w_unlocked
        → Move s (record s { memory = store s.memory latch_at w_locked; phase = writing })
    bump :
        (s : State)
        → s.phase ≡ writing
        → Move s (record s {
          memory = store s.memory base ((s.memory base + 1) % 2 ^ 64);
          phase = bumped;
          bumps = s.bumps + 1;
        })
    write :
        (s : State) (i v : ℕ)
        → s.phase ≡ bumped
        → i < k
        → Move s (record s { memory = store s.memory (base + 16 + 8 * i) v })
    release :
        (s : State)
        → s.phase ≡ bumped
        → Move s (record s { memory = store s.memory latch_at w_unlocked; phase = idle })
    elsewhere : (s : State) (m : Memory) → SameTuple s.memory m → Move s (record s { memory = m })

  pub data Moves (s : State) : State → Type 0 where
    here : Moves s s
    next : {t u : State} → Moves s t → Move t u → Moves s u

  pub append : {s t u : State} → Moves s t → Moves t u → Moves s u
  append r here = r
  append r (next r' st) = next (append r r') st

  abbrev held : Phase → ℕ
  held idle = w_unlocked
  held writing = w_locked
  held bumped = w_locked

  -- The lock word says whether there is a holder, and the version counts the increments.
  pub record Inv (s : State) : Type 0 where
    pub lock : s.memory latch_at ≡ held s.phase
    pub version : s.memory base ≡ s.bumps % 2 ^ 64

  Move-Inv : {s t : State} → Move s t → Inv s → Inv t
  Move-Inv (acquire s free) v = ground (arith, v.version)
  Move-Inv (bump s p) v = record {
    lock = ground (arith, v.lock, ap held p);
    version = ground (arith, v.version);
  }
  Move-Inv (write s i x p lt) v = ground (arith, v.version, v.lock)
  Move-Inv (release s p) v = ground (arith, v.version)
  Move-Inv (elsewhere s m (e, f, same)) v = record { lock = f ∙ v.lock; version = e ∙ v.version }

  pub Moves-Inv : {s t : State} → Inv s → Moves s t → Inv t
  Moves-Inv v here = v
  Moves-Inv v (next r st) = Move-Inv st (Moves-Inv v r)

  -- From a state with no holder, as long as the version is not incremented the words are as they were,
  -- whether there is a holder or not.
  data Since (s t : State) : Type 0 where
    untouched : t.phase ≡ idle → SameWords s.memory t.memory → s.bumps ≡ t.bumps → Since s t
    begun : t.phase ≡ writing → SameWords s.memory t.memory → s.bumps ≡ t.bumps → Since s t
    later : s.bumps < t.bumps → Since s t

  free_idle : {s : State} → Inv s → s.memory latch_at ≡ w_unlocked → s.phase ≡ idle
  free_idle {s} v free = free_phase s.phase (sym v.lock ∙ free)
    where
      free_phase : (p : Phase) → held p ≡ w_unlocked → p ≡ idle
      free_phase idle e = refl
      free_phase writing e = absurd (omega arith)
      free_phase bumped e = absurd (omega arith)

  bumps-grow : {s t : State} → Move s t → s.bumps ≤ t.bumps
  bumps-grow (acquire s free) = omega arith
  bumps-grow (bump s p) = omega arith
  bumps-grow (write s i v p lt) = omega arith
  bumps-grow (release s p) = omega arith
  bumps-grow (elsewhere s m (e, f, same)) = omega arith

  Move-Since : {s t u : State} → Inv t → Since s t → Move t u → Since s u
  Move-Since v (untouched p same e) (acquire t free) =
      begun refl (λ i lt. ground (arith, same i lt)) e
  Move-Since v (untouched p same e) (bump t q) = absurd (cc)
  Move-Since v (untouched p same e) (write t i x q lt) = absurd (cc)
  Move-Since v (untouched p same e) (release t q) = absurd (cc)
  Move-Since v (untouched p same e) (elsewhere t m (f, g, kept)) =
      untouched p (λ i lt. kept i lt ∙ same i lt) e
  Move-Since v (begun p same e) (acquire t free) = absurd (ground (arith, v.lock))
  Move-Since v (begun p same e) (bump t q) = later (omega arith)
  Move-Since v (begun p same e) (write t i x q lt) = absurd (cc)
  Move-Since v (begun p same e) (release t q) = absurd (cc)
  Move-Since v (begun p same e) (elsewhere t m (f, g, kept)) =
      begun p (λ i lt. kept i lt ∙ same i lt) e
  Move-Since v (later lt) st = later (omega (arith, bumps-grow st))

  Moves-Since : {s t : State} → Inv s → s.phase ≡ idle → Moves s t → Since s t
  Moves-Since v p here = untouched p (λ i lt. refl) refl
  Moves-Since v p (next r st) = Move-Since (Moves-Inv v r) (Moves-Since v p r) st

  pub Moves-bumps : {s t : State} → Moves s t → s.bumps ≤ t.bumps
  Moves-bumps here = omega arith
  Moves-bumps (next r st) = omega (arith, Moves-bumps r, bumps-grow st)

  -- Where the version is the same at two moments, between which it has not gone round, and the lock was
  -- free at a moment in between, the words were at every later moment up to the second what they were
  -- when the lock was free.
  pub between-SameWords :
      {s l t u : State}
      → Inv s
      → Moves s l
      → Moves l t
      → Moves t u
      → l.memory latch_at ≡ w_unlocked
      → s.memory base ≡ u.memory base
      → u.bumps < s.bumps + 2 ^ 64
      → SameWords l.memory t.memory
  between-SameWords {s} {l} {t} {u} v r r' r'' free same few =
      settle (Moves-Since vl (free_idle vl free) r')
    where
      vl : Inv l
      vl = Moves-Inv v r

      vu : Inv u
      vu = Moves-Inv (Moves-Inv vl r') r''

      no_bumps : u.bumps ≡ s.bumps
      no_bumps =
          omega (arith, v.version, vu.version, Moves-bumps r, Moves-bumps r', Moves-bumps r'')

      settle : Since l t → SameWords l.memory t.memory
      settle (untouched p kept e) = kept
      settle (begun p kept e) = kept
      settle (later lt) = absurd (omega (arith, no_bumps, Moves-bumps r, Moves-bumps r''))

  -- The version at a moment between the two is the same too.
  pub between-version :
      {s l u : State}
      → Inv s
      → Moves s l
      → Moves l u
      → s.memory base ≡ u.memory base
      → u.bumps < s.bumps + 2 ^ 64
      → l.memory base ≡ s.memory base
  between-version {s} {l} {u} v r r' same few =
      omega (arith, v.version, vl.version, vu.version, same, Moves-bumps r, Moves-bumps r')
    where
      vl : Inv l
      vl = Moves-Inv v r

      vu : Inv u
      vu = Moves-Inv vl r'
