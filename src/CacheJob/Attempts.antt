-- ===== src/CacheJob/Attempts.antt =====
-- How often a workspace cache job is tried
-- (packages/worker/src/orchestrator/workspace-cache-job.ts).
use codevil.Base.{ℕ, suc, ◌+◌, ◌≤◌, ◌<◌, ◌≡◌, true, String, none, some}
use codevil.Session.{SessionState}
use codevil.CacheJob.{
  WorkspaceCacheJob, WorkspaceCacheJobStatus, pending, JobTable, SnapshotResult,
  enqueue_workspace_cache_job, recover_workspace_cache_job_after_restart, begin_workspace_cache_job,
  settle_workspace_cache_job, max_workspace_cache_attempts, is_running,
}

-- One thing that happens to the table: a job is enqueued, processed up to its snapshot, settled by
-- the result of the attempt that runs, or recovered when the object was created anew. The numbers
-- count the restarts.
pub data IsJobStep (t : JobTable) (restarts : ℕ) : JobTable → ℕ → Type 0 where
  enqueued :
      (repo session_id : String) (now : ℕ)
      → IsJobStep t restarts (enqueue_workspace_cache_job repo session_id now t) restarts
  begun :
      (state : SessionState) (now : ℕ)
      → IsJobStep t restarts (begin_workspace_cache_job state now t).0 restarts
  settled :
      (job : WorkspaceCacheJob) (result : SnapshotResult) (now done_at : ℕ)
      → t ≡ some job
      → is_running job.status ≡ true
      → IsJobStep t restarts
          (some (settle_workspace_cache_job result job.attempts now done_at job).0)
          restarts
  recovered :
      (now : ℕ)
      → IsJobStep t restarts (recover_workspace_cache_job_after_restart now t).0 (suc restarts)

-- The tables of a new session, with the restarts so far.
pub data IsJob : JobTable → ℕ → Type 0 where
  no_job : IsJob none 0
  step :
      {t : JobTable} {restarts : ℕ} {t' : JobTable} {restarts' : ℕ}
      → IsJob t restarts
      → IsJobStep t restarts t' restarts'
      → IsJob t' restarts'

-- The attempts that have begun: one fewer than the limit while a job waits.
abbrev pub IsWithin : WorkspaceCacheJobStatus → ℕ → ℕ → Type 0
IsWithin pending attempts limit = attempts < limit
IsWithin _ attempts limit = attempts ≤ limit

abbrev pub IsBounded : JobTable → ℕ → Type 0
IsBounded none restarts = Unit
IsBounded (some job) restarts =
    IsWithin job.status job.attempts (max_workspace_cache_attempts + restarts)
