-- ===== src/Lock/ReaderWriter/Safety.antt =====
-- What the lock word guarantees in every reachable state.
use rdma_synchronization.Common.{
  ℕ, ◌+◌, ◌*◌, ◌<◌, ◌≤◌, ◌≡◌, ◌≢◌, ◌⊎◌, inl, inr, refl, ap, ◌∙◌, List, [], ◌∷◌, ◌==◌, leb, arith,
  length, get_or, set, replicate, length-set, length-replicate, Bool-cases,
}
use rdma_synchronization.Common.Sums.{sum, sum-set, member, two_members, sum-replicate, sum-bound}
use rdma_synchronization.Lock.Config.{exclusive_locked, unlocked}
use rdma_synchronization.Lock.ReaderWriter.System.{
  Phase, idle, writing, reading, aborting, Request, System, next_word, next_phase, Sends, idle_x,
  idle_s, writing_x, reading_s, aborting_s, request, Reach, start, step,
}

abbrev writers : Phase → ℕ
writers writing = 1
writers _ = 0

abbrev readers : Phase → ℕ
readers reading = 1
readers _ = 0

-- What a client has added to the word and not yet subtracted.
abbrev shared : Phase → ℕ
shared reading = 1
shared aborting = 1
shared _ = 0

-- The word counts the shared additions below `EXCLUSIVE_LOCKED` and the writer above it.
pub record Inv (n : ℕ) (s : System) : Type 0 where
  pub size : length s.phases ≡ n
  pub counts : s.word ≡ sum shared s.phases + exclusive_locked * sum writers s.phases
  pub alone : (sum writers s.phases ≡ 0) ⊎ ((sum writers s.phases ≡ 1) × (sum readers s.phases ≡ 0))

shared-1 : (p : Phase) → shared p ≤ 1
shared-1 idle = omega arith
shared-1 writing = omega arith
shared-1 reading = omega arith
shared-1 aborting = omega arith

-- Every reader is among those that have added to the word.
sum-readers : (ps : List Phase) → sum readers ps ≤ sum shared ps
sum-readers [] = omega arith
sum-readers (idle ∷ ps) = omega (arith, sum-readers ps)
sum-readers (writing ∷ ps) = omega (arith, sum-readers ps)
sum-readers (reading ∷ ps) = omega (arith, sum-readers ps)
sum-readers (aborting ∷ ps) = omega (arith, sum-readers ps)

module _ (n : ℕ) (s : System) (inv : Inv n s) (i : ℕ) (below : i < n)
    (few : n < exclusive_locked) where
  open inv use {size, counts, alone}

  inside : i < length s.phases
  inside = omega (arith, size)

  -- The sums after a step of client `i` to `p`.
  after :
      (f : Phase → ℕ) (p : Phase)
      → sum f (set s.phases i p) + f (get_or s.phases i idle) ≡ sum f s.phases + f p
  after f p = sum-set idle f s.phases i p inside

  bound : sum shared s.phases ≤ n
  bound = omega (arith, sum-bound shared s.phases shared-1, size)

  old : {p : Phase} (f : Phase → ℕ) → get_or s.phases i idle ≡ p → f (get_or s.phases i idle) ≡ f p
  old f e = ap f e

  moved :
      (w : ℕ) (p q : Phase)
      → get_or s.phases i idle ≡ p
      → w + (shared p + exclusive_locked * writers p)
        ≡ s.word + (shared q + exclusive_locked * writers q)
      → (writers q ≡ 0)
        ⊎ ((writers q ≡ 1) × (sum shared s.phases + sum writers s.phases ≡ 0) × (readers q ≡ 0))
      → (readers q ≡ 0) ⊎ ((readers q ≡ 1) × (sum writers s.phases ≡ 0))
      → Inv n (record { word = w; phases = set s.phases i q })
  moved w p q e word alone_q free_q = record {
    size = length-set s.phases i q ∙ size;
    counts =
        omega (arith, word, counts, after shared q, after writers q, old shared e, old writers e);
    alone = ground (
      arith,
      alone,
      alone_q,
      free_q,
      after writers q,
      after readers q,
      old writers e,
      old readers e,
      sum-readers s.phases,
    );
  }

  alone_cases : sum writers s.phases ≤ 1
  alone_cases = ground (arith, alone)

  Sends-Inv :
      {p : Phase} {r : Request} → Sends p r → get_or s.phases i idle ≡ p → Inv n (request s i r)
  unfolding request next_word next_phase
  Sends-Inv idle_x e = elim (Bool-cases (s.word == unlocked)) [
    | inl h ↦ rw h (
        moved exclusive_locked idle writing e (ground arith) (ground (arith, counts))
          (ground arith))
    | inr h ↦ rw h (moved s.word idle idle e (omega arith) (ground arith) (ground arith))
  ]
  Sends-Inv idle_s e = elim (Bool-cases (leb exclusive_locked s.word)) [
    | inl h ↦ rw h (
        moved _ idle aborting e (omega (arith, counts, bound, alone_cases)) (ground arith)
          (ground arith))
    | inr h ↦ rw h (
        moved _ idle reading e (omega (arith, counts, bound, alone_cases)) (ground arith)
          (ground (arith, counts)))
  ]
  Sends-Inv writing_x e =
      moved _ writing idle e
        (omega
          (arith, counts, bound, alone_cases, member idle writers s.phases i inside, old writers e))
        (ground arith) (ground arith)
  Sends-Inv reading_s e =
      moved _ reading idle e
        (omega
          (arith, counts, bound, alone_cases, member idle shared s.phases i inside, old shared e))
        (ground arith) (ground arith)
  Sends-Inv aborting_s e =
      moved _ aborting idle e
        (omega
          (arith, counts, bound, alone_cases, member idle shared s.phases i inside, old shared e))
        (ground arith) (ground arith)

Inv-start : (n : ℕ) (s : System) → s.word ≡ unlocked → s.phases ≡ replicate n idle → Inv n s
Inv-start n s w ps = record {
  size = ap length ps ∙ length-replicate n idle;
  counts = omega (
    arith,
    w,
    ap (sum shared) ps,
    ap (sum writers) ps,
    sum-replicate shared n idle refl,
    sum-replicate writers n idle refl,
  );
  alone = inl (ap (sum writers) ps ∙ sum-replicate writers n idle refl);
}

pub Reach-Inv : {n : ℕ} {s : System} → n < exclusive_locked → Reach n s → Inv n s
Reach-Inv {n} few (start s w ps) = Inv-start n s w ps
Reach-Inv {n} few (step s i r past below sends) =
    Sends-Inv n s (Reach-Inv few past) i below few sends refl

-- While one client holds the lock to write, no other client holds it, to write or to read.
pub writer_excludes :
    (n : ℕ) (s : System) (i j : ℕ)
    → n < exclusive_locked
    → Reach n s
    → i < n
    → j < n
    → i ≢ j
    → get_or s.phases i idle ≡ writing
    → (get_or s.phases j idle ≢ writing) × (get_or s.phases j idle ≢ reading)
writer_excludes n s i j few past below_i below_j ne w = (two, reads)
  where
    inv : Inv n s
    inv = Reach-Inv few past

    one : 1 ≤ sum writers s.phases
    one = omega (arith, member idle writers s.phases i (omega (arith, inv.size)), ap writers w)

    two : get_or s.phases j idle ≡ writing → ⊥
    two e = ground (
      arith,
      inv.alone,
      two_members idle writers s.phases i j (omega (arith, inv.size)) (omega (arith, inv.size)) ne,
      ap writers w,
      ap writers e,
    )

    reads : get_or s.phases j idle ≡ reading → ⊥
    reads e = ground (
      arith,
      one,
      inv.alone,
      member idle readers s.phases j (omega (arith, inv.size)),
      ap readers e,
    )

-- When every client is outside, the word is back at `UNLOCKED`.
pub all_idle-unlocked :
    (n : ℕ) (s : System)
    → n < exclusive_locked
    → Reach n s
    → s.phases ≡ replicate n idle
    → s.word ≡ unlocked
all_idle-unlocked n s few past ps = omega (
  arith,
  inv.counts,
  ap (sum shared) ps,
  ap (sum writers) ps,
  sum-replicate shared n idle refl,
  sum-replicate writers n idle refl,
)
  where
    inv : Inv n s
    inv = Reach-Inv few past
