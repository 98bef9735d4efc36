-- ===== src/SandboxHandlers/Consistent.antt =====
-- The invariant and the messages of the sandbox
-- (packages/worker/src/orchestrator/sandbox-handlers.ts).
use codevil.Base.{ℕ, suc, ◌≤◌, ◌≢◌, String, none, some, arith, inl, inr, Option-cases}
use codevil.Session.{ready, retrying, is_valid_transition, max_refinement_rounds}
use codevil.Host.{
  Host, Event, CostInfo, emit, send_to_sandbox, update_directory, save_meta, transition, track_cost,
}
use codevil.Activity.{arm_next_alarm, event}
use codevil.Consistency.{IsConsistent}
use codevil.Consistency.Steps.{
  emit-IsConsistent, record_activity-IsConsistent, update_directory-IsConsistent,
}
use codevil.Coordinator.{set_active_run_state}
use codevil.Coordinator.Consistent.{complete_active_run-IsConsistent, fail_active_run-IsConsistent}
use codevil.CliHandlers.Requests.{drain_queued-IsConsistent}
use codevil.CliHandlers.Frame.{cancel_open_questions-KeepsMeta}
use codevil.CliHandlers.{cancel_open_questions}
use codevil.Teardown.Consistent.{
  revoke_preview-IsConsistent, cancel_questions_of-IsConsistent, fail_transition-IsConsistent,
}
use codevil.Teardown.{terminate_sandbox}
use codevil.SandboxHandlers.{
  SandboxInput, QuestionRequest, dispatch_sandbox_message, clone_started, clone_complete,
  preview_stopped, plan_ready, agent_turn_complete, agent_turn_failed, verification_started,
  verification_retrying, verification_failed, execution_complete, consolidation_complete,
  consolidation_failed, ask_question_request, pr_created, preview_starting, preview_error,
  preview_apps, error, status, clone_progress, agent_event, proxy_capabilities_refresh_request,
  create_pr_request, branch_pushed, preview_ready, handle_sandbox_preview_ready,
  handle_sandbox_clone_started, handle_sandbox_clone_complete, announce_ready,
  enqueue_cache_job_if_supported, enqueue_workspace_cache_job, on_executing,
  handle_sandbox_agent_turn_complete, handle_sandbox_agent_turn_failed, begin_verification,
  set_verification_attempts, handle_sandbox_verification_started,
  handle_sandbox_verification_retrying, handle_sandbox_verification_failed, ask_for_pull_request,
  handle_sandbox_execution_complete, handle_ask_question_request, terminate_if_created,
  fail_on_error, handle_sandbox_error,
}
use codevil.SandboxHandlers.Planning.{
  plan_ready-IsConsistent, consolidation_complete-IsConsistent, consolidation_failed-IsConsistent,
}

clone_started-IsConsistent :
    (h : Host) → IsConsistent h → IsConsistent (handle_sandbox_clone_started h)
unfolding handle_sandbox_clone_started transition is_valid_transition save_meta emit
    update_directory
clone_started-IsConsistent h c = ground arith

enqueue_cache_job-IsConsistent :
    (h : Host) → IsConsistent h → IsConsistent (enqueue_cache_job_if_supported h)
unfolding enqueue_cache_job_if_supported enqueue_workspace_cache_job arm_next_alarm
enqueue_cache_job-IsConsistent h c = ground arith

announce_ready-IsConsistent : (h : Host) → IsConsistent h → IsConsistent (announce_ready h)
unfolding announce_ready
announce_ready-IsConsistent h c = drain_queued-IsConsistent _ (
    enqueue_cache_job-IsConsistent _ (
      emit-IsConsistent _ _ (
        emit-IsConsistent _ _
          (record_activity-IsConsistent event _ (update_directory-IsConsistent _ h c)))))

clone_complete-IsConsistent :
    (h : Host) → IsConsistent h → IsConsistent (handle_sandbox_clone_complete h)
unfolding handle_sandbox_clone_complete transition is_valid_transition save_meta emit
clone_complete-IsConsistent h c = ground (arith, announce_ready-IsConsistent (transition ready h).0)

turn_complete-IsConsistent :
    (run_id response : String) (cost : CostInfo) (h : Host)
    → IsConsistent h
    → IsConsistent (handle_sandbox_agent_turn_complete run_id response cost h)
unfolding handle_sandbox_agent_turn_complete on_executing track_cost emit save_meta
turn_complete-IsConsistent run_id response cost h c = elim (Option-cases h.meta.active_run) [
  | inl e ↦ rw (e, on_executing) c
  | inr (run, e) ↦
      rw (e, on_executing)
        (ground (
          arith,
          complete_active_run-IsConsistent none
              (emit (Event.agent_response run.id response cost) (track_cost cost h)),
        ))
]

turn_failed-IsConsistent :
    (run_id message : String) (h : Host)
    → IsConsistent h
    → IsConsistent (handle_sandbox_agent_turn_failed run_id message h)
unfolding handle_sandbox_agent_turn_failed on_executing
turn_failed-IsConsistent run_id message h c = ground (
  arith,
  cancel_open_questions-KeepsMeta run_id "run failed" h,
  fail_active_run-IsConsistent message (cancel_open_questions run_id "run failed" h),
)

verification_started-IsConsistent :
    (attempt max_attempts : ℕ) (h : Host)
    → IsConsistent h
    → IsConsistent (handle_sandbox_verification_started attempt max_attempts h)
unfolding handle_sandbox_verification_started begin_verification set_verification_attempts
    transition is_valid_transition save_meta emit set_active_run_state update_directory
verification_started-IsConsistent attempt max_attempts h c = ground arith

verification_retrying-IsConsistent :
    (attempt max_attempts : ℕ) (h : Host)
    → IsConsistent h
    → IsConsistent (handle_sandbox_verification_retrying attempt max_attempts h)
unfolding handle_sandbox_verification_retrying set_verification_attempts transition
    is_valid_transition save_meta emit set_active_run_state update_directory
verification_retrying-IsConsistent attempt max_attempts h c = ground arith

verification_failed-IsConsistent :
    (attempts : ℕ) (last_error : String) (h : Host)
    → IsConsistent h
    → IsConsistent (handle_sandbox_verification_failed attempts last_error h)
unfolding handle_sandbox_verification_failed emit
verification_failed-IsConsistent attempts last_error h c = ground (
  arith,
  fail_active_run-IsConsistent last_error (emit (Event.verification_failed attempts last_error) h),
)

execution_complete-IsConsistent :
    (cost : CostInfo) (h : Host)
    → IsConsistent h
    → IsConsistent (handle_sandbox_execution_complete cost h)
unfolding handle_sandbox_execution_complete ask_for_pull_request track_cost transition
    is_valid_transition save_meta emit set_active_run_state update_directory send_to_sandbox
execution_complete-IsConsistent cost h c = ground arith

preview_ready-IsConsistent :
    (token_hash url command : String) (port : ℕ) (h : Host)
    → IsConsistent h
    → IsConsistent (handle_sandbox_preview_ready token_hash url command port h)
unfolding handle_sandbox_preview_ready save_meta emit
preview_ready-IsConsistent token_hash url command port h c = ground arith

ask_question-IsConsistent :
    (q : QuestionRequest) (h : Host)
    → IsConsistent h
    → IsConsistent (handle_ask_question_request q h)
unfolding handle_ask_question_request emit
ask_question-IsConsistent q h c = ground arith

terminate-IsConsistent : (h : Host) → IsConsistent h → IsConsistent (terminate_if_created h)
unfolding terminate_if_created terminate_sandbox save_meta
terminate-IsConsistent h c = ground arith

fail_on_error-IsConsistent :
    (message : String) (h : Host) → IsConsistent h → IsConsistent (fail_on_error message h)
unfolding fail_on_error
fail_on_error-IsConsistent message h c = terminate-IsConsistent _ (
    emit-IsConsistent _ _
      (cancel_questions_of-IsConsistent _ _ _ (fail_transition-IsConsistent h c)))

sandbox_error-IsConsistent :
    (message : String) (h : Host) → IsConsistent h → IsConsistent (handle_sandbox_error message h)
unfolding handle_sandbox_error
sandbox_error-IsConsistent message h c = elim (Option-cases h.meta.active_run) [
  | inl e ↦ rw (e, handle_sandbox_error) (fail_on_error-IsConsistent message h c)
  | inr (run, e) ↦
      rw (e, handle_sandbox_error)
        (ground (
          arith,
          fail_on_error-IsConsistent message h c,
          cancel_open_questions-KeepsMeta run.id "run failed" h,
          fail_active_run-IsConsistent message (cancel_open_questions run.id "run failed" h),
        ))
]

-- What a message must be for the session to stay consistent: a pull request does not end a run
-- whose verification is retried, and a brief is for a round that was not the last.
abbrev pub IsTimely : SandboxInput → Host → Type 0
IsTimely (pr_created url) h = h.meta.state ≢ retrying
IsTimely (consolidation_complete run_id round brief cost) h = suc round ≤ max_refinement_rounds
IsTimely m h = Unit {0}

-- A message of the sandbox, of any kind, keeps the session consistent, if it is not a pull
-- request reported while verification is retried, nor a brief for the last round of refinement. (A
-- pull request that the message itself asks for settles later.)
pub dispatch_sandbox_message-IsConsistent :
    (m : SandboxInput) (h : Host)
    → IsConsistent h
    → IsTimely m h
    → IsConsistent (dispatch_sandbox_message m h)
unfolding dispatch_sandbox_message
dispatch_sandbox_message-IsConsistent clone_started h c t = clone_started-IsConsistent h c
dispatch_sandbox_message-IsConsistent clone_complete h c t = clone_complete-IsConsistent h c
dispatch_sandbox_message-IsConsistent (plan_ready plan cost) h c t =
    plan_ready-IsConsistent plan cost h c
dispatch_sandbox_message-IsConsistent (agent_turn_complete run_id response cost) h c t =
    turn_complete-IsConsistent run_id response cost h c
dispatch_sandbox_message-IsConsistent (agent_turn_failed run_id message) h c t =
    turn_failed-IsConsistent run_id message h c
dispatch_sandbox_message-IsConsistent (verification_started n k) h c t =
    verification_started-IsConsistent n k h c
dispatch_sandbox_message-IsConsistent (verification_retrying n k) h c t =
    verification_retrying-IsConsistent n k h c
dispatch_sandbox_message-IsConsistent (verification_failed n err) h c t =
    verification_failed-IsConsistent n err h c
dispatch_sandbox_message-IsConsistent (execution_complete cost) h c t =
    execution_complete-IsConsistent cost h c
dispatch_sandbox_message-IsConsistent (consolidation_complete run_id round brief cost) h c t =
    consolidation_complete-IsConsistent run_id round brief cost h c t
dispatch_sandbox_message-IsConsistent (consolidation_failed run_id round message) h c t =
    consolidation_failed-IsConsistent run_id round message h c
dispatch_sandbox_message-IsConsistent (ask_question_request question) h c t =
    ask_question-IsConsistent question h c
dispatch_sandbox_message-IsConsistent (pr_created url) h c t =
    complete_active_run-IsConsistent (some url) h c t
dispatch_sandbox_message-IsConsistent proxy_capabilities_refresh_request h c t = c
dispatch_sandbox_message-IsConsistent (create_pr_request _ _ _ _ _ _ _) h c t = c
dispatch_sandbox_message-IsConsistent (branch_pushed _ _ _ _) h c t = c
dispatch_sandbox_message-IsConsistent (preview_ready token_hash url command port) h c t =
    preview_ready-IsConsistent token_hash url command port h c
dispatch_sandbox_message-IsConsistent (preview_starting command port) h c t =
    emit-IsConsistent _ h c
dispatch_sandbox_message-IsConsistent (preview_error message) h c t =
    emit-IsConsistent _ _ (revoke_preview-IsConsistent h c)
dispatch_sandbox_message-IsConsistent preview_stopped h c t =
    emit-IsConsistent _ _ (revoke_preview-IsConsistent h c)
dispatch_sandbox_message-IsConsistent (preview_apps apps) h c t = emit-IsConsistent _ h c
dispatch_sandbox_message-IsConsistent (error message) h c t = sandbox_error-IsConsistent message h c
dispatch_sandbox_message-IsConsistent (status message) h c t = emit-IsConsistent _ h c
dispatch_sandbox_message-IsConsistent (clone_progress line) h c t = emit-IsConsistent _ h c
dispatch_sandbox_message-IsConsistent (agent_event text) h c t = emit-IsConsistent _ h c
