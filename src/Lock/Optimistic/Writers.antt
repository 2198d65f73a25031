-- ===== src/Lock/Optimistic/Writers.antt =====
-- The writers of one tuple under `V2` with the lock in the footer, as the memory of the storage node
-- shows them: the successful compare-and-swap of `AbstractLock::lock`, and then the words of the one
-- write of `FooterLock::unlock` in the order of their addresses, the version and the lock word last.
use rdma_synchronization.Common.{
  ℕ, ◌+◌, ◌*◌, ◌%◌, ◌^◌, ◌<◌, ◌≤◌, ◌≡◌, ◌≢◌, refl, sym, ap, ◌∙◌, arith,
}
use rdma_synchronization.Rdma.Memory.{Memory, store}
use rdma_synchronization.Lock.Config.{w_locked, w_unlocked}

pub data Phase : Type 0 where
  idle writing bumped : Phase

-- The memory, how far the holder of the lock is, and how often the version was incremented, which no
-- code reads.
pub record State : Type 0 where
  pub memory : Memory
  pub phase : Phase
  pub bumps : ℕ

-- A tuple of `k` words with its version and its lock behind them.
module _ (base k : ℕ) where
  abbrev pub version_at : ℕ
  version_at = base + 8 * k

  abbrev pub lock_at : ℕ
  lock_at = base + 8 * k + 8

  -- Two memories with the same tuple.
  abbrev pub SameTuple : Memory → Memory → Type 0
  SameTuple m m' = (i : ℕ) → i < k + 2 → m' (base + 8 * i) ≡ m (base + 8 * i)

  pub data Step : State → State → Type 0 where
    acquire :
        (s : State)
        → s.memory lock_at ≡ w_unlocked
        → Step s (record s { memory = store s.memory lock_at w_locked; phase = writing })
    write :
        (s : State) (i v : ℕ)
        → s.phase ≡ writing
        → i < k
        → Step s (record s { memory = store s.memory (base + 8 * i) v })
    bump :
        (s : State)
        → s.phase ≡ writing
        → Step s (record s {
          memory = store s.memory version_at ((s.memory version_at + 1) % 2 ^ 64);
          phase = bumped;
          bumps = s.bumps + 1;
        })
    release :
        (s : State)
        → s.phase ≡ bumped
        → Step s (record s { memory = store s.memory lock_at w_unlocked; phase = idle })
    elsewhere : (s : State) (m : Memory) → SameTuple s.memory m → Step s (record s { memory = m })

  pub data Reach (s : State) : State → Type 0 where
    here : Reach s s
    next : {t u : State} → Reach s t → Step t u → Reach s u

  pub append : {s t u : State} → Reach s t → Reach t u → Reach s u
  append r here = r
  append r (next r' st) = next (append r r') st

  abbrev held : Phase → ℕ
  held idle = w_unlocked
  held writing = w_locked
  held bumped = w_locked

  -- The lock word says whether there is a holder, and the version counts the increments.
  pub record Inv (s : State) : Type 0 where
    pub lock : s.memory lock_at ≡ held s.phase
    pub version : s.memory version_at ≡ s.bumps % 2 ^ 64

  Step-Inv : {s t : State} → Step s t → Inv s → Inv t
  Step-Inv (acquire s free) v = ground (arith, v.version)
  Step-Inv (write s i x p lt) v = ground (arith, v.version, v.lock)
  Step-Inv (bump s p) v = record {
    lock = ground (arith, v.lock);
    version = ground (arith, v.version);
  }
  Step-Inv (release s p) v = ground (arith, v.version)
  Step-Inv (elsewhere s m same) v = record {
    lock = ap m (omega arith) ∙ same (k + 1) (omega arith) ∙ ap s.memory (omega arith) ∙ v.lock;
    version = same k (omega arith) ∙ v.version;
  }

  pub Reach-Inv : {s t : State} → Inv s → Reach s t → Inv t
  Reach-Inv v here = v
  Reach-Inv v (next r st) = Step-Inv st (Reach-Inv v r)

  -- The words of the tuple without its version and its lock.
  abbrev SameWords : Memory → Memory → Type 0
  SameWords m m' = (i : ℕ) → i < k → m' (base + 8 * i) ≡ m (base + 8 * i)

  -- As long as the version is not incremented the words are as they were, or there is a holder that has
  -- not come to the version.
  data Since (s t : State) : Type 0 where
    settled : t.phase ≢ writing → SameWords s.memory t.memory → s.bumps ≡ t.bumps → Since s t
    begun : t.phase ≡ writing → s.bumps ≡ t.bumps → Since s t
    later : s.bumps < t.bumps → Since s t

  idle_free : {s : State} → Inv s → s.memory lock_at ≡ w_unlocked → s.phase ≡ idle
  idle_free {s} v free = free_phase s.phase (sym v.lock ∙ free)
    where
      free_phase : (p : Phase) → held p ≡ w_unlocked → p ≡ idle
      free_phase idle e = refl
      free_phase writing e = absurd (omega arith)
      free_phase bumped e = absurd (omega arith)

  bumps-le : {s t : State} → Step s t → s.bumps ≤ t.bumps
  bumps-le (acquire s free) = omega arith
  bumps-le (write s i v p lt) = omega arith
  bumps-le (bump s p) = omega arith
  bumps-le (release s p) = omega arith
  bumps-le (elsewhere s m same) = omega arith

  Step-Since : {s t u : State} → Inv t → Since s t → Step t u → Since s u
  Step-Since v (settled p same e) (acquire t free) = begun refl e
  Step-Since v (settled p same e) (write t i x q lt) = absurd (p q)
  Step-Since v (settled p same e) (bump t q) = absurd (p q)
  Step-Since v (settled p same e) (release t q) =
      settled (λ f. cc) (λ i lt. ground (arith, same i lt)) e
  Step-Since v (settled p same e) (elsewhere t m kept) =
      settled p (λ i lt. kept i (omega arith) ∙ same i lt) e
  Step-Since v (begun p e) (acquire t free) = absurd (ground (arith, v.lock))
  Step-Since v (begun p e) (write t i x q lt) = begun p e
  Step-Since v (begun p e) (bump t q) = later (omega arith)
  Step-Since v (begun p e) (release t q) = absurd (cc)
  Step-Since v (begun p e) (elsewhere t m kept) = begun p e
  Step-Since v (later lt) st = later (omega (arith, bumps-le st))

  first-Since : (s : State) (p : Phase) → s.phase ≡ p → Since s s
  first-Since s idle e = settled (λ f. cc) (λ i lt. refl) refl
  first-Since s writing e = begun e refl
  first-Since s bumped e = settled (λ f. cc) (λ i lt. refl) refl

  Reach-Since : {s t : State} → Inv s → Reach s t → Since s t
  Reach-Since {s} v here = first-Since s s.phase refl
  Reach-Since v (next r st) = Step-Since (Reach-Inv v r) (Reach-Since v r) st

  Reach-bumps : {s t : State} → Reach s t → s.bumps ≤ t.bumps
  Reach-bumps here = omega arith
  Reach-bumps (next r st) = omega (arith, Reach-bumps r, bumps-le st)

  -- Where the version is the same at two moments, between which it has not gone round, and the lock was
  -- free at a moment in between, the words were at every earlier moment from the first on what they were
  -- when the lock was free.
  pub between-SameWords :
      {s t w u : State}
      → Inv s
      → Reach s t
      → Reach t w
      → Reach w u
      → w.memory lock_at ≡ w_unlocked
      → s.memory version_at ≡ u.memory version_at
      → u.bumps < s.bumps + 2 ^ 64
      → SameWords t.memory w.memory
  between-SameWords {s} {t} {w} {u} v r r' r'' free same few = settle (Reach-Since vt r')
    where
      vt : Inv t
      vt = Reach-Inv v r

      vw : Inv w
      vw = Reach-Inv vt r'

      vu : Inv u
      vu = Reach-Inv vw r''

      no_bumps : u.bumps ≡ s.bumps
      no_bumps =
          omega (arith, v.version, vu.version, Reach-bumps r, Reach-bumps r', Reach-bumps r'')

      settle : Since t w → SameWords t.memory w.memory
      settle (settled p kept e) = kept
      settle (begun p e) = cc (idle_free vw free)
      settle (later lt) = absurd (omega (arith, no_bumps, Reach-bumps r, Reach-bumps r''))

  -- The version at a moment between the two is the same too.
  pub between-version :
      {s w u : State}
      → Inv s
      → Reach s w
      → Reach w u
      → s.memory version_at ≡ u.memory version_at
      → u.bumps < s.bumps + 2 ^ 64
      → w.memory version_at ≡ u.memory version_at
  between-version {s} {w} {u} v r r' same few =
      omega (arith, v.version, vw.version, vu.version, same, Reach-bumps r, Reach-bumps r')
    where
      vw : Inv w
      vw = Reach-Inv v r

      vu : Inv u
      vu = Reach-Inv vw r'
