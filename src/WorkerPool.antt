-- ===== src/WorkerPool.antt =====
-- backend/nam/threads/WorkerPool.cpp: how jobs go to one thread of the pool. Every function here is what
-- happens while the mutex of the thread is held; `none` is a wait on its condition variable.
pub mod Jobs
use rdma_synchronization.Common.{
  ℕ, Bool, true, false, not, ◌&&◌, ◌||◌, Option, none, some, if◌then◌else◌,
}

-- `WorkerThread`; a job is named by a number.
pub record WorkerThread : Type 0 where
  pub job : ℕ
  pub wt_ready : Bool
  pub job_set : Bool
  pub job_done : Bool

abbrev pub new_thread : WorkerThread
new_thread = record { job = 0; wt_ready = true; job_set = false; job_done = false }

-- The thread is given a job once it is ready and has none.
unfoldable pub schedule_job : ℕ → WorkerThread → Option WorkerThread
schedule_job job meta =
    if not meta.job_set && meta.wt_ready
    then some (record meta { job_set = true; job_done = false; job = job })
    else none

-- `scheduleJobSync` goes on to wait for this.
unfoldable pub sync_returns : WorkerThread → Bool
sync_returns meta = meta.job_done

-- One turn of the thread's loop: it ends, or gives the job that it has run.
pub data Turn : Type 0 where
  stops : Turn
  runs : ℕ → WorkerThread → Turn

unfoldable pub work : Bool → WorkerThread → Option Turn
work keep_running meta =
    if not keep_running || meta.job_set
    then some (
        if not keep_running
        then stops
        else runs meta.job (record meta { wt_ready = true; job_done = true; job_set = false }))
    else none

-- `joinAll` goes on to the next thread.
unfoldable pub join_returns : WorkerThread → Bool
join_returns meta = meta.wt_ready && not meta.job_set
