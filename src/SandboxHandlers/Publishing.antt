-- ===== src/SandboxHandlers/Publishing.antt =====
-- A pull request that settles after its run was aborted
-- (packages/worker/src/orchestrator/sandbox-handlers.ts, cli-handlers.ts).
use codevil.Base.{◌≡◌, String, List, [], ◌∷◌, none, some, arith, ◌∙◌, ap}
use codevil.Text.{truthy}
use codevil.Session.{creating_pr, ready, is_valid_transition, is_terminal_state}
use codevil.Room.{AgentRun, AgentRunState}
use codevil.AgentRuns.{start_run}
use codevil.Host.{Host, Event, emit, transition, save_meta}
use codevil.Coordinator.{
  ensure_active_run, return_ready, complete_active_run, finish_run_and_drain_queue,
}
use codevil.Coordinator.Queue.{HasBegun, next_run-HasBegun}
use codevil.CliHandlers.{handle_abort, abort_active, finish_aborted, abort_run}
use codevil.CliHandlers.Frame.{cancel_open_questions-KeepsMeta}
use codevil.SandboxHandlers.{settle_pull_request}
use codevil.SandboxHandlers.Retrying.{finished_idle}

abort_run-HasBegun :
    (actor id : String) (h : Host) (next : AgentRun) (rest : List AgentRun)
    → h.meta.state ≡ ready
    → h.meta.queued_runs ≡ next ∷ rest
    → HasBegun (start_run next) rest (abort_run actor id h)
unfolding abort_run emit
abort_run-HasBegun actor id h next rest s q =
    let told = emit (Event.status "Agent run cancelled." (some actor)) h in
    let kept = cancel_open_questions-KeepsMeta id "run cancelled" told in
    next_run-HasBegun AgentRunState.cancelled _ next rest (ap (λ m. m.state) kept.meta ∙ s)
      (ap (λ m. m.queued_runs) kept.meta ∙ q)

abort-HasBegun :
    (actor : String) (run next : AgentRun) (rest : List AgentRun) (h : Host)
    → h.meta.state ≡ creating_pr
    → h.meta.active_run ≡ some run
    → h.meta.queued_runs ≡ next ∷ rest
    → HasBegun (start_run next) rest (handle_abort actor none h)
unfolding handle_abort ensure_active_run abort_active is_terminal_state transition
    is_valid_transition save_meta finish_aborted
abort-HasBegun actor run next rest h s a q = ground (
  arith,
  abort_run-HasBegun actor run.id
      (record h { meta = record h.meta { state = ready }; saved = record h.meta { state = ready } })
      next rest,
)

return_ready-queue : (h : Host) → (return_ready h).meta.queued_runs ≡ h.meta.queued_runs
unfolding return_ready transition save_meta emit
return_ready-queue h = ground arith

settles :
    (url : String) (run : AgentRun) (h : Host)
    → h.meta.active_run ≡ some run
    → settle_pull_request (some url) h
      ≡ finish_run_and_drain_queue AgentRunState.completed
          (emit (Event.agent_run_completed run.id (truthy (some url))) (return_ready h))
unfolding settle_pull_request complete_active_run
settles url run h a = ground (arith, a)

-- A run that waits for its pull request is aborted, and the next one begins. The pull request then
-- settles, and ends that next one: it is told to be completed, with the url of the aborted run's pull
-- request, and no run is active.
pub late_pull_request :
    (actor url : String) (run next : AgentRun) (h : Host)
    → h.meta.state ≡ creating_pr
    → h.meta.active_run ≡ some run
    → h.meta.queued_runs ≡ next ∷ []
    → let g = handle_abort actor none h in
      let f = settle_pull_request (some url) g in
      HasBegun (start_run next) [] g
      × (f
          ≡ finish_run_and_drain_queue AgentRunState.completed
              (emit (Event.agent_run_completed next.id (truthy (some url))) (return_ready g)))
      × (f.meta.active_run ≡ none)
unfolding emit start_run
late_pull_request actor url run next h s a q =
    let begun = abort-HasBegun actor run next [] h s a q in
    let g = handle_abort actor none h in
    let told : Host =
      emit (Event.agent_run_completed next.id (truthy (some url))) (return_ready g) in
    let settled = settles url _ g begun.active in
    let idle = finished_idle AgentRunState.completed told (return_ready-queue g ∙ begun.queue) in
    (begun, settled, ap (λ f. f.meta.active_run) settled ∙ idle.1)
