-- ===== src/Tests/Pools.antt =====
-- A thread of the pool that has run one job.
use rdma_synchronization.Common.{◌≡◌, refl, true, false, [], ◌∷◌}
use rdma_synchronization.WorkerPool.{new_thread, schedule_job, work, join_returns, sync_returns}
use rdma_synchronization.WorkerPool.Jobs.{Pool, Reach, start, gives, turns, all_jobs_run}

abbrev fresh_pool : Pool
fresh_pool = record { meta = new_thread; given = []; run = [] }

abbrev one_given : Pool
one_given = record {
  meta = record { job = 7; wt_ready = true; job_set = true; job_done = false };
  given = 7 ∷ [];
  run = [];
}

abbrev one_run : Pool
one_run = record {
  meta = record { job = 7; wt_ready = true; job_set = false; job_done = true };
  given = 7 ∷ [];
  run = 7 ∷ [];
}

one_given-Reach : Reach one_given
unfolding schedule_job
one_given-Reach = gives fresh_pool 7 one_given.meta start refl

one_run-Reach : Reach one_run
unfolding work
one_run-Reach = turns one_given 7 one_run.meta one_given-Reach refl

all_jobs_run_example : one_run.run ≡ one_run.given
unfolding join_returns sync_returns
all_jobs_run_example = all_jobs_run one_run one_run-Reach refl
