-- ===== src/Tests/CacheJob.antt =====
-- The theorem on the attempts of a workspace cache job, at a job that was interrupted once.
use codevil.Base.{none}
use codevil.Session.{ready}
use codevil.CacheJob.{
  JobTable, enqueue_workspace_cache_job, begin_workspace_cache_job,
  recover_workspace_cache_job_after_restart,
}

abbrev interrupted_once : JobTable
interrupted_once =
    (recover_workspace_cache_job_after_restart 60
      (begin_workspace_cache_job ready 20
        (enqueue_workspace_cache_job "acme/site" "ses_1" 10 none)).0).0
