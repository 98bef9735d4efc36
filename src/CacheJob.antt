-- ===== src/CacheJob.antt =====
-- packages/worker/src/orchestrator/workspace-cache-job.ts: the job that stores a session's workspace
-- for later sessions. The table holds one row or none. `processWorkspaceCacheJob` is two definitions:
-- what it does before the snapshot is made and what it does with the result.
pub mod Attempts
use codevil.Base.{
  ℕ, zero, suc, ◌+◌, ◌-◌, ◌*◌, Bool, true, false, not, ◌&&◌, ◌||◌, String, Option, none, some,
  is_some, leb, ltb, if◌then◌else◌, power_of_two,
}
use codevil.Session.{SessionState, initializing, provisioning_sandbox, cloning_repo, is_state}

abbrev pub max_workspace_cache_attempts : ℕ
max_workspace_cache_attempts = 3

abbrev pub workspace_cache_retry_base_ms : ℕ
workspace_cache_retry_base_ms = 30_000

pub data WorkspaceCacheJobStatus : Type 0 where
  pending running ready failed exhausted interrupted : WorkspaceCacheJobStatus

pub record WorkspaceCacheJob : Type 0 where
  pub repo : String
  pub source_session_id : String
  pub status : WorkspaceCacheJobStatus
  pub attempts : ℕ
  pub next_attempt_at : Option ℕ
  pub started_at : Option ℕ
  pub snapshot_id : Option String
  pub last_error : Option String
  pub created_at : ℕ
  pub updated_at : ℕ

-- The table `workspace_cache_jobs`.
abbrev pub JobTable : Type 0
JobTable = Option WorkspaceCacheJob

pub data CacheJobResult : Type 0 where
  job_ready job_failed job_exhausted job_interrupted job_deferred job_missing : CacheJobResult

unfoldable pub enqueue_workspace_cache_job : String → String → ℕ → JobTable → JobTable
enqueue_workspace_cache_job repo session_id now (some job) = some job
enqueue_workspace_cache_job repo session_id now none = some (record {
  repo = repo;
  source_session_id = session_id;
  status = pending;
  attempts = 0;
  next_attempt_at = some now;
  started_at = none;
  snapshot_id = none;
  last_error = none;
  created_at = now;
  updated_at = now;
})

abbrev pub is_pending : WorkspaceCacheJobStatus → Bool
is_pending pending = true
is_pending _ = false

abbrev pub is_running : WorkspaceCacheJobStatus → Bool
is_running running = true
is_running _ = false

unfoldable pub workspace_cache_job_is_running : JobTable → Bool
workspace_cache_job_is_running none = false
workspace_cache_job_is_running (some job) = is_running job.status

unfoldable pub next_workspace_cache_job_at : JobTable → Option ℕ
next_workspace_cache_job_at none = none
next_workspace_cache_job_at (some job) = if is_pending job.status then job.next_attempt_at else none

unfoldable pub requeue_workspace_cache_job : ℕ → String → WorkspaceCacheJob → WorkspaceCacheJob
requeue_workspace_cache_job now reason job =
    if is_running job.status
    then record job {
      status = pending;
      next_attempt_at = some now;
      started_at = none;
      last_error = some reason;
      updated_at = now;
    }
    else job

unfoldable pub recover_workspace_cache_job_after_restart : ℕ → JobTable → JobTable × Bool
recover_workspace_cache_job_after_restart now none = (none, false)
recover_workspace_cache_job_after_restart now (some job) = (
  some (requeue_workspace_cache_job now "cache snapshot interrupted by Durable Object restart" job),
  true,
)

unfoldable pub is_workspace_claimable_state : SessionState → Bool
is_workspace_claimable_state state = not (
    is_state state initializing
    || is_state state provisioning_sandbox
    || is_state state cloning_repo)

unfoldable pub defer_workspace_cache_job : ℕ → String → WorkspaceCacheJob → WorkspaceCacheJob
defer_workspace_cache_job now reason job =
    if is_pending job.status || is_running job.status
    then record job {
      status = pending;
      next_attempt_at = some (now + workspace_cache_retry_base_ms);
      started_at = none;
      last_error = some reason;
      updated_at = now;
    }
    else job

-- The claim of a job that waits; the number is that of the attempt.
unfoldable pub claim_workspace_cache_job : ℕ → WorkspaceCacheJob → WorkspaceCacheJob × ℕ
claim_workspace_cache_job now job = (
  if is_pending job.status
      then record job {
        status = running;
        attempts = suc job.attempts;
        started_at = some now;
        next_attempt_at = none;
        updated_at = now;
      }
      else job,
  suc job.attempts,
)

-- What is decided before the snapshot: the result, or the attempt that begins.
pub data Begun : Type 0 where
  stopped : CacheJobResult → Begun
  claimed : (attempt : ℕ) → Begun

abbrev pub is_due : Option ℕ → ℕ → Bool
is_due none now = true
is_due (some at) now = leb at now

unfoldable pub begin_pending : SessionState → ℕ → WorkspaceCacheJob → WorkspaceCacheJob × Begun
begin_pending state now job =
    let (taken, attempt) = claim_workspace_cache_job now job in
    if not (is_due job.next_attempt_at now)
    then (job, stopped job_deferred)
    else if not (is_workspace_claimable_state state)
    then (
      defer_workspace_cache_job now "session state does not allow claiming yet" job,
      stopped job_deferred,
    )
    else (taken, claimed attempt)

unfoldable pub begin_job : SessionState → ℕ → WorkspaceCacheJob → WorkspaceCacheJob × Begun
begin_job state now job = elim job.status [
  | ready ↦ (job, stopped job_ready)
  | failed ↦ (job, stopped job_failed)
  | exhausted ↦ (job, stopped job_exhausted)
  | interrupted ↦ (job, stopped job_interrupted)
  | running ↦ (job, stopped job_deferred)
  | pending ↦ begin_pending state now job
]

unfoldable pub begin_workspace_cache_job : SessionState → ℕ → JobTable → JobTable × Begun
begin_workspace_cache_job state now none = (none, stopped job_missing)
begin_workspace_cache_job state now (some job) =
    let (next, begun) = begin_job state now job in (some next, begun)

unfoldable pub retry_delay_ms : ℕ → ℕ
retry_delay_ms attempt = workspace_cache_retry_base_ms * power_of_two (attempt - 1)

-- What making the snapshot gives: its identity, or whether another attempt is of use, and why.
pub data SnapshotResult : Type 0 where
  created : (snapshot_id : String) → SnapshotResult
  not_created : (retryable : Bool) (reason : String) → SnapshotResult

-- The rest of `processWorkspaceCacheJob`: `now` is when the attempt began, `done_at` when it ended.
unfoldable pub settle_workspace_cache_job :
    SnapshotResult → ℕ → ℕ → ℕ → WorkspaceCacheJob → WorkspaceCacheJob × CacheJobResult
settle_workspace_cache_job (created snapshot_id) attempt now done_at job = (
  record job {
    status = ready;
    snapshot_id = some snapshot_id;
    next_attempt_at = none;
    started_at = none;
    last_error = none;
    updated_at = done_at;
  },
  job_ready,
)
settle_workspace_cache_job (not_created retryable reason) attempt now done_at job =
    if retryable && ltb attempt max_workspace_cache_attempts
    then (
      record job {
        status = pending;
        next_attempt_at = some (now + retry_delay_ms attempt);
        started_at = none;
        last_error = some reason;
        updated_at = done_at;
      },
      job_deferred,
    )
    else (
      record job {
        status = if retryable then exhausted else failed;
        next_attempt_at = none;
        started_at = none;
        last_error = some reason;
        updated_at = done_at;
      },
      if retryable then job_exhausted else job_failed,
    )
