-- ===== src/Latch/System/Inv.antt =====
-- What holds in every reachable state of threads that share an `OptimisticLatch`.
use rdma_synchronization.Common.{
  ℕ, ◌+◌, ◌/◌, ◌%◌, ◌^◌, ◌≤◌, ◌≡◌, refl, Bool, true, false, arith, update,
}
use rdma_synchronization.Latch.Optimistic.{optimistic_latch_or_restart}
use rdma_synchronization.Latch.Optimistic.Cases.{
  start_cases, upgrade-true, upgrade-false, unlatch-some, write_unlock_obsolete_lem,
}
use rdma_synchronization.Latch.System.{
  Memory, Pc, idle, loaded, owner, storing, reader, Move, load, cas_win, cas_lose, write,
  unlatch_load, unlatch_store, obsolete, read, check_pass, check_restart, System, Reach, initially,
  then_move, init, after_load, start_read,
}

-- A thread between the exclusive latch and its release.
abbrev pub holds : Pc → Bool
holds owner = true
holds (storing _) = true
holds _ = false

-- What the locals of a thread say about the shared memory.
abbrev pub Fresh : Memory → Pc → Type 0
Fresh m idle = Unit
Fresh m (loaded v) = v / 2 % 2 ≡ 0
Fresh m owner = Unit
Fresh m (storing w) = w ≡ (m.word + 2) % 2 ^ 64
Fresh m (reader v e w) =
    (v ≡ e % 2 ^ 64) × (e / 2 % 2 ≡ 0) × (e ≤ m.epoch) × (e ≡ m.epoch → w ≡ m.writes)

pub record Inv (m : Memory) (pc : ℕ → Pc) : Type 0 where
  pub wraps : m.word ≡ m.epoch % 2 ^ 64
  -- A thread that holds the latch is the only one, and the latch bit is set exactly if one does.
  pub unique : (i j : ℕ) → holds (pc i) ≡ true → holds (pc j) ≡ true → i ≡ j
  pub latched : (i : ℕ) → holds (pc i) ≡ true → m.word / 2 % 2 ≡ 1
  pub held : m.word / 2 % 2 ≡ 1 → (i : ℕ) × (holds (pc i) ≡ true)
  pub fresh : (i : ℕ) → Fresh m (pc i)

Inv-init : Inv init.mem init.pc
Inv-init = record {
  wraps = refl;
  unique = λ i j h k. cc;
  latched = λ i h. cc;
  held = λ h. absurd (omega arith);
  fresh = λ i. tt;
}

started : (w : ℕ) → holds (after_load (optimistic_latch_or_restart w)) ≡ false
started w = ground (arith, start_cases w)

reading : (m : Memory) → holds (start_read m (optimistic_latch_or_restart m.word)) ≡ false
reading m = ground (arith, start_cases m.word)

module _ {m : Memory} {pc : ℕ → Pc} (inv : Inv m pc) (i : ℕ) where
  open inv use {wraps, unique, latched, held, fresh}

  Move-wraps : {p p' : Pc} {m' : Memory} → Move m p m' p' → pc i ≡ p → m'.word ≡ m'.epoch % 2 ^ 64
  Move-wraps load e = wraps
  Move-wraps (cas_win {v} h) e = omega (arith, wraps, upgrade-true v m.word h)
  Move-wraps (cas_lose {v} h) e = omega (arith, wraps, upgrade-false v m.word h)
  Move-wraps write e = wraps
  Move-wraps (unlatch_load h) e = wraps
  Move-wraps (unlatch_store {w}) e = ground (arith, wraps, fresh i)
  Move-wraps (obsolete h) e = omega (arith, wraps, write_unlock_obsolete_lem m.word)
  Move-wraps read e = wraps
  Move-wraps (check_pass h) e = wraps
  Move-wraps (check_restart h) e = wraps

  Move-unique :
      {p p' : Pc} {m' : Memory}
      → Move m p m' p'
      → pc i ≡ p
      → (j k : ℕ) → holds (update pc i p' j) ≡ true
      → holds (update pc i p' k) ≡ true
      → j ≡ k
  Move-unique load e j k a b = ground (arith, unique j k, started m.word)
  Move-unique (cas_win {v} h) e j k a b =
      ground (arith, fresh i, upgrade-true v m.word h, latched j, latched k)
  Move-unique (cas_lose h) e j k a b = ground (arith, unique j k)
  Move-unique write e j k a b = ground (arith, unique j k, unique i k, unique i j)
  Move-unique (unlatch_load h) e j k a b = ground (arith, unique j k, unique i k, unique i j)
  Move-unique unlatch_store e j k a b = ground (arith, unique j k)
  Move-unique (obsolete h) e j k a b = ground (arith, unique j k)
  Move-unique read e j k a b = ground (arith, unique j k, reading m)
  Move-unique (check_pass h) e j k a b = ground (arith, unique j k)
  Move-unique (check_restart h) e j k a b = ground (arith, unique j k)

  Move-latched :
      {p p' : Pc} {m' : Memory}
      → Move m p m' p'
      → pc i ≡ p
      → (j : ℕ) → holds (update pc i p' j) ≡ true
      → m'.word / 2 % 2 ≡ 1
  Move-latched load e j a = ground (arith, latched j, started m.word)
  Move-latched (cas_win {v} h) e j a = ground (arith, fresh i, upgrade-true v m.word h)
  Move-latched (cas_lose {v} h) e j a = ground (arith, latched j, upgrade-false v m.word h)
  Move-latched write e j a = ground (arith, latched j, latched i)
  Move-latched (unlatch_load h) e j a = ground (arith, latched j, latched i)
  Move-latched unlatch_store e j a = ground (arith, unique i j)
  Move-latched (obsolete h) e j a = ground (arith, unique i j)
  Move-latched read e j a = ground (arith, latched j, reading m)
  Move-latched (check_pass h) e j a = ground (arith, latched j)
  Move-latched (check_restart h) e j a = ground (arith, latched j)

  -- The holder of a set latch bit is still there, unless it is the thread that moves.
  still :
      (p' : Pc)
      → holds (pc i) ≡ false
      → m.word / 2 % 2 ≡ 1
      → (j : ℕ) × (holds (update pc i p' j) ≡ true)
  still p' away bit = let (j, a) = held bit in (j, ground arith)

  Move-held :
      {p p' : Pc} {m' : Memory}
      → Move m p m' p'
      → pc i ≡ p
      → m'.word / 2 % 2 ≡ 1
      → (j : ℕ) × (holds (update pc i p' j) ≡ true)
  Move-held load e bit = still _ (ground arith) bit
  Move-held (cas_win h) e bit = (i, ground arith)
  Move-held (cas_lose {v} h) e bit =
      still _ (ground arith) (omega (arith, upgrade-false v m.word h))
  Move-held write e bit = (i, ground arith)
  Move-held (unlatch_load h) e bit = (i, ground arith)
  Move-held unlatch_store e bit = absurd (ground (arith, fresh i, latched i))
  Move-held (obsolete h) e bit =
      absurd (ground (arith, latched i, write_unlock_obsolete_lem m.word))
  Move-held read e bit = still _ (ground arith) bit
  Move-held (check_pass h) e bit = still _ (ground arith) bit
  Move-held (check_restart h) e bit = still _ (ground arith) bit

  Move-Fresh :
      {p p' : Pc} {m' : Memory} → Move m p m' p' → pc i ≡ p → (j : ℕ) → Fresh m' (update pc i p' j)
  Move-Fresh load e j = ground (arith, fresh j, start_cases m.word)
  Move-Fresh (cas_win {v} h) e j =
      ground (arith, fresh j, fresh i, latched j, upgrade-true v m.word h)
  Move-Fresh (cas_lose {v} h) e j = ground (arith, fresh j, upgrade-false v m.word h)
  Move-Fresh write e j = ground (arith, fresh j, latched i, wraps, unique i j)
  Move-Fresh (unlatch_load h) e j = ground (arith, fresh j, unlatch-some m.word h)
  Move-Fresh unlatch_store e j = ground (arith, fresh j, fresh i, unique i j)
  Move-Fresh (obsolete h) e j = ground (arith, fresh j, unique i j)
  Move-Fresh read e j = ground (arith, fresh j, start_cases m.word, wraps)
  Move-Fresh (check_pass h) e j = ground (arith, fresh j)
  Move-Fresh (check_restart h) e j = ground (arith, fresh j)

  Move-Inv : {p' : Pc} {m' : Memory} → Move m (pc i) m' p' → Inv m' (update pc i p')
  Move-Inv mv = record {
    wraps = Move-wraps mv refl;
    unique = Move-unique mv refl;
    latched = Move-latched mv refl;
    held = Move-held mv refl;
    fresh = Move-Fresh mv refl;
  }

pub Reach-Inv : {n : ℕ} {s : System} → Reach n s → Inv s.mem s.pc
Reach-Inv initially = Inv-init
Reach-Inv (then_move i lt r mv) = Move-Inv (Reach-Inv r) i mv
