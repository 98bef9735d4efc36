-- ===== src/SandboxHandlers/Retrying.antt =====
-- The abort and the end of a run whose verification is retried
-- (packages/worker/src/orchestrator/cli-handlers.ts, sandbox-handlers.ts).
use codevil.Base.{◌≡◌, true, String, [], ◌∷◌, Option, none, some, arith, ◌∙◌, subst}
use codevil.Text.{concat, truthy}
use codevil.Session.{
  SessionState, retrying, ready, is_valid_transition, is_terminal_state, state_name,
}
use codevil.Room.{AgentRun, AgentRunState}
use codevil.Host.{Host, Event, emit, transition}
use codevil.Coordinator.{
  ensure_active_run, return_ready, complete_active_run, finish_run_and_drain_queue, take_next,
}
use codevil.Coordinator.Drain.{start_next, take_next-none, finish_run_and_drain_queue_lem}
use codevil.Coordinator.Queue.{record_activity-KeepsRuns, take_next-kept}
use codevil.Consistency.{IsConsistent, RunMatches}
use codevil.SandboxHandlers.{dispatch_sandbox_message, pr_created}
use codevil.CliHandlers.{handle_abort, abort_active}

abbrev pub refused_transition : SessionState → SessionState → Event
refused_transition from to =
    Event.error (concat ("Invalid transition: " ∷ state_name from ∷ " → " ∷ state_name to ∷ []))
      none

stuck :
    (actor : String) (h : Host)
    → h.meta.state ≡ retrying
    → abort_active actor h ≡ emit (refused_transition retrying ready) h
unfolding abort_active transition is_valid_transition is_terminal_state
stuck actor h s = ground arith

-- The abort of the active run is refused while its verification is retried: the session's meta,
-- its runs, and its sandbox stay as they are, and the clients are told of an invalid transition.
pub abort_refused :
    (actor : String) (run_id : Option String) (h : Host)
    → ensure_active_run run_id h ≡ (h, true)
    → h.meta.state ≡ retrying
    → handle_abort actor run_id h ≡ emit (refused_transition retrying ready) h
unfolding handle_abort
abort_refused actor run_id h e s = rw e (stuck actor h s)

return_ready-retrying : (h : Host) → h.meta.state ≡ retrying → return_ready h ≡ h
unfolding return_ready is_valid_transition
return_ready-retrying h s = ground (arith, s)

pub finished_idle :
    (final : AgentRunState) (h : Host)
    → h.meta.queued_runs ≡ []
    → ((finish_run_and_drain_queue final h).meta.state ≡ h.meta.state)
      × ((finish_run_and_drain_queue final h).meta.active_run ≡ none)
finished_idle final h q =
    let idle = start_next-none (take_next final h) ((take_next-none final h q).1) in
    let kept = record_activity-KeepsRuns (take_next final h) in
    rw (finish_run_and_drain_queue_lem final h, idle)
      (kept.state ∙ (take_next-kept final h).0, kept.active ∙ (take_next-none final h q).1)
  where
    start_next-none : (g : Host) → g.meta.active_run ≡ none → start_next g ≡ g
    start_next-none g e = ground (arith, e)

unmatched :
    (state : SessionState) (run : Option AgentRun)
    → RunMatches state run
    → state ≡ retrying
    → run ≡ none
    → ⊥
unmatched state run m e f = subst (λ r. RunMatches retrying r) f (subst (λ s. RunMatches s run) e m)

completed :
    (url : Option String) (run : AgentRun) (h : Host)
    → h.meta.state ≡ retrying
    → h.meta.active_run ≡ some run
    → h.meta.queued_runs ≡ []
    → ((complete_active_run url h).meta.state ≡ retrying)
      × ((complete_active_run url h).meta.active_run ≡ none)
unfolding complete_active_run emit
completed url run h s a q =
    let g : Host = emit (Event.agent_run_completed run.id (truthy url)) h in
    let idle = finished_idle AgentRunState.completed g q in
    rw (a, complete_active_run) (rw (return_ready-retrying h s) (idle.0 ∙ s, idle.1))

-- A pull request that is reported while verification is retried ends the run but not the state:
-- with an empty queue the session keeps `retrying`, has no active run, and so is not consistent.
pub complete_while_retrying :
    (url : String) (run : AgentRun) (h : Host)
    → h.meta.state ≡ retrying
    → h.meta.active_run ≡ some run
    → h.meta.queued_runs ≡ []
    → let g = dispatch_sandbox_message (pr_created url) h in
      (g.meta.state ≡ retrying) × (g.meta.active_run ≡ none) × (IsConsistent g → ⊥)
unfolding dispatch_sandbox_message
complete_while_retrying url run h s a q =
    let done = completed (some url) run h s a q in
    (done.0, done.1, λ c. unmatched _ _ (c.matched) (done.0) (done.1))
