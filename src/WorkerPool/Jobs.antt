-- ===== src/WorkerPool/Jobs.antt =====
-- Which jobs a thread of the pool has run.
use rdma_synchronization.Common.{
  ℕ, ◌≡◌, refl, true, false, ◌||◌, some, List, [], ◌∷◌, if◌then◌else◌, arith,
}
use rdma_synchronization.WorkerPool.{
  WorkerThread, new_thread, schedule_job, sync_returns, runs, work, join_returns,
}

-- A thread with the jobs that it was given and the jobs that it has run, the last one first.
pub record Pool : Type 0 where
  pub meta : WorkerThread
  pub given : List ℕ
  pub run : List ℕ

-- Any number of callers give it jobs, in any order with its own turns.
pub data Reach : Pool → Type 0 where
  start : Reach (record { meta = new_thread; given = []; run = [] })
  gives :
      (p : Pool) (job : ℕ) (meta : WorkerThread)
      → Reach p
      → schedule_job job p.meta ≡ some meta
      → Reach (record p { meta = meta; given = job ∷ p.given })
  turns :
      (p : Pool) (job : ℕ) (meta : WorkerThread)
      → Reach p
      → work true p.meta ≡ some (runs job meta)
      → Reach (record p { meta = meta; run = job ∷ p.run })

-- The job that waits to be run, in front of those that have been.
abbrev pending : WorkerThread → List ℕ → List ℕ
pending meta run = if meta.job_set then meta.job ∷ run else run

pub record Inv (p : Pool) : Type 0 where
  pub ready : p.meta.wt_ready ≡ true
  pub once : p.given ≡ pending p.meta p.run
  pub fresh : p.meta.job_set ≡ true → p.meta.job_done ≡ false

gives-Inv :
    (p : Pool) (job : ℕ) (meta : WorkerThread)
    → Inv p
    → schedule_job job p.meta ≡ some meta
    → Inv (record p { meta = meta; given = job ∷ p.given })
unfolding schedule_job
gives-Inv p job meta v e = record {
  ready = ground (arith, v.ready);
  once = ground (arith, v.ready, v.once);
  fresh = ground (arith, v.ready);
}

turns-Inv :
    (p : Pool) (job : ℕ) (meta : WorkerThread)
    → Inv p
    → work true p.meta ≡ some (runs job meta)
    → Inv (record p { meta = meta; run = job ∷ p.run })
unfolding work
turns-Inv p job meta v e = record {
  ready = ground (arith, v.ready);
  once = ground (arith, v.once);
  fresh = ground (arith, v.ready);
}

pub Reach-Inv : {p : Pool} → Reach p → Inv p
Reach-Inv start = record { ready = refl; once = refl; fresh = λ e. cc }
Reach-Inv (gives p job meta r e) = gives-Inv p job meta (Reach-Inv r) e
Reach-Inv (turns p job meta r e) = turns-Inv p job meta (Reach-Inv r) e

-- However callers and the thread take turns, when `joinAll` goes past a thread, or a caller of
-- `scheduleJobSync` sees its flag, the thread has run exactly the jobs that it was given, each once
-- and in their order.
pub all_jobs_run :
    (p : Pool) → Reach p → (join_returns p.meta || sync_returns p.meta) ≡ true → p.run ≡ p.given
unfolding join_returns sync_returns
all_jobs_run p r e = ground (arith, (Reach-Inv r).once, (Reach-Inv r).fresh, (Reach-Inv r).ready)
