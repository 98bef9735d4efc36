-- ===== src/SandboxHandlers.antt =====
-- packages/worker/src/orchestrator/sandbox-handlers.ts: what the session does for its sandbox.
mod Runs
mod Plans
mod Planning
pub mod Consistent
pub mod Retrying
pub mod Publishing
unfoldable pub use Runs.*
unfoldable pub use Plans.*
use codevil.Base.{
  ℕ, Bool, true, false, not, ◌&&◌, String, List, [], ◌∷◌, Option, none, some, is_some,
  if◌then◌else◌,
}
use codevil.Session.{failed, executing, is_state}
use codevil.Host.{Host, Event, CostInfo, emit, fail_with, transition, revoke_preview}
use codevil.Coordinator.{complete_active_run, fail_active_run_and_return_ready}
use codevil.CliHandlers.{cancel_open_questions, active_run_id}
use codevil.Teardown.{terminate_sandbox, cancel_questions_of}

-- The messages of the sandbox. `preview_ready` carries the token's hash and the address that its
-- handler makes, and stands for the moment at which they are there.
pub data SandboxInput : Type 0 where
  clone_started clone_complete preview_stopped : SandboxInput
  proxy_capabilities_refresh_request : SandboxInput
  plan_ready : (plan : String) (cost : CostInfo) → SandboxInput
  agent_turn_complete : (run_id : String) (response : String) (cost : CostInfo) → SandboxInput
  agent_turn_failed : (run_id : String) (message : String) → SandboxInput
  verification_started : (attempt : ℕ) (max_attempts : ℕ) → SandboxInput
  verification_retrying : (attempt : ℕ) (max_attempts : ℕ) → SandboxInput
  verification_failed : (attempts : ℕ) (last_error : String) → SandboxInput
  execution_complete : (cost : CostInfo) → SandboxInput
  consolidation_complete :
      (run_id : String) (round : ℕ) (brief : String) (cost : CostInfo) → SandboxInput
  consolidation_failed : (run_id : String) (round : ℕ) (message : String) → SandboxInput
  ask_question_request : (question : QuestionRequest) → SandboxInput
  create_pr_request :
      (run_id request_id branch base_branch title body : String) (draft : Bool) → SandboxInput
  branch_pushed : (branch base_branch pr_title pr_body : String) → SandboxInput
  pr_created : (url : String) → SandboxInput
  preview_starting : (command : String) (port : ℕ) → SandboxInput
  preview_ready : (token_hash url command : String) (port : ℕ) → SandboxInput
  preview_error : (message : String) → SandboxInput
  preview_apps : (apps : List String) → SandboxInput
  error : (message : String) → SandboxInput
  status : (message : String) → SandboxInput
  clone_progress : (line : String) → SandboxInput
  agent_event : (event : String) → SandboxInput

unfoldable pub terminate_if_created : Host → Host
terminate_if_created h = if is_some h.meta.sandbox_ref then terminate_sandbox h else h

-- An error outside a turn ends the session.
unfoldable pub fail_on_error : String → Host → Host
fail_on_error message h = terminate_if_created (
    fail_with message
      (cancel_questions_of (active_run_id h) "session failed" (transition failed h).0))

unfoldable pub handle_sandbox_error : String → Host → Host
handle_sandbox_error message h = elim (active_run_id h) [
  | none ↦ fail_on_error message h
  | some run_id ↦
      if is_state h.meta.state executing
      then fail_active_run_and_return_ready message (cancel_open_questions run_id "run failed" h)
      else fail_on_error message h
]

-- A request for capabilities and one for a pull request are answered to the socket alone. A branch
-- that was pushed changes nothing before the pull request is there: see `settle_pull_request`.
unfoldable pub dispatch_sandbox_message : SandboxInput → Host → Host
dispatch_sandbox_message clone_started = handle_sandbox_clone_started
dispatch_sandbox_message clone_complete = handle_sandbox_clone_complete
dispatch_sandbox_message (plan_ready plan cost) = handle_sandbox_plan_ready plan cost
dispatch_sandbox_message (agent_turn_complete run_id response cost) =
    handle_sandbox_agent_turn_complete run_id response cost
dispatch_sandbox_message (agent_turn_failed run_id message) =
    handle_sandbox_agent_turn_failed run_id message
dispatch_sandbox_message (verification_started attempt max_attempts) =
    handle_sandbox_verification_started attempt max_attempts
dispatch_sandbox_message (verification_retrying attempt max_attempts) =
    handle_sandbox_verification_retrying attempt max_attempts
dispatch_sandbox_message (verification_failed attempts last_error) =
    handle_sandbox_verification_failed attempts last_error
dispatch_sandbox_message (execution_complete cost) = handle_sandbox_execution_complete cost
dispatch_sandbox_message (consolidation_complete run_id round brief cost) =
    handle_consolidation_complete run_id round brief cost
dispatch_sandbox_message (consolidation_failed run_id round message) =
    handle_consolidation_failed run_id round message
dispatch_sandbox_message (ask_question_request question) = handle_ask_question_request question
dispatch_sandbox_message proxy_capabilities_refresh_request = λ h. h
dispatch_sandbox_message (create_pr_request run_id request_id branch base_branch title body draft) =
    λ h. h
dispatch_sandbox_message (branch_pushed branch base_branch pr_title pr_body) = λ h. h
dispatch_sandbox_message (preview_ready token_hash url command port) =
    handle_sandbox_preview_ready token_hash url command port
dispatch_sandbox_message (pr_created url) = complete_active_run (some url)
dispatch_sandbox_message (preview_starting command port) =
    emit (Event.preview_starting command port)
dispatch_sandbox_message (preview_error message) =
    λ h. emit (Event.preview_error message) (revoke_preview h)
dispatch_sandbox_message preview_stopped = λ h. emit Event.preview_stopped (revoke_preview h)
dispatch_sandbox_message (preview_apps apps) = emit (Event.preview_apps apps)
dispatch_sandbox_message (error message) = handle_sandbox_error message
dispatch_sandbox_message (status message) = emit (Event.status message none)
dispatch_sandbox_message (clone_progress line) = emit (Event.clone_progress line)
dispatch_sandbox_message (agent_event event) = emit (Event.agent_event event)
