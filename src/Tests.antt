-- ===== src/Tests.antt =====
-- The theorems on sessions, at concrete ones.
mod CacheJob
mod Components
mod Pausing
mod Projections
mod Sandbox
mod Snapshots
mod WebClient
mod DirectoryQueue
use codevil.Base.{
  ◌≡◌, ◌≢◌, refl, ◌+◌, true, false, String, List, [], ◌∷◌, Option, none, some, arith, suc,
}
use codevil.Text.{concat}
use codevil.Session.{
  ready, retrying, creating_pr, executing, state_name, is_terminal_state, is_valid_transition,
}
use codevil.Room.{AgentRunState}
use codevil.Host.{Host, Event, emit, transition, save_meta, send_to_sandbox, update_directory}
use codevil.Consistency.{IsConsistent}
use codevil.AgentRuns.{start_run, finish_active_agent_run}
use codevil.Examples.{
  alice, bob, waiting, executing_host, between, retrying_host, first_run, second_run, run_in, cost,
  host_of, meta_in, open_one, plan,
}
use codevil.ClientMessages.{
  Sender, dispatch_client_message, approve, abort, agent_request, question_answer, Memberships,
  web_socket_message,
}
use codevil.SandboxHandlers.{
  dispatch_sandbox_message, agent_turn_complete, execution_complete, pr_created,
  awaits_pull_request, settle_pull_request, verification_started,
}
use codevil.Invariant.{
  IsReached, IsStep, begin, next, pushed, published, by_client, by_sandbox, reached-IsConsistent,
  dispatch_client_message-IsConsistent,
}
use codevil.Text.{truthy}
use codevil.SandboxHandlers.Publishing.{late_pull_request}
use codevil.SandboxHandlers.Consistent.{dispatch_sandbox_message-IsConsistent}
use codevil.SandboxHandlers.Retrying.{abort_refused, complete_while_retrying, refused_transition}
use codevil.Connection.{live_sandbox_sockets}
use codevil.CliHandlers.{
  abort_active, finish_aborted, abort_run, cancel_open_questions, send_cancellations,
  handle_approve, handle_refine, handle_abort,
}
use codevil.CliHandlers.Decisions.{IsApproved, approved_already, first_approval_wins}
use codevil.Coordinator.{
  return_ready, ensure_active_run, finish_run_and_drain_queue, take_next, drain_queue, start_with,
  reset_for, begin_phase, enter_phase, begin_executing, announce, set_active_run_state,
}
use codevil.Coordinator.Queue.{HasFailed, HasBegun, queue-HasFailed, next_run-HasBegun}
use codevil.QuestionsStore.{list_open_question_ids}
use codevil.Lifecycle.{should_pause_sandbox}
use codevil.Activity.{
  sandbox_alarm_deadlines, idle_pause_input, record_session_activity, is_throttled, mark_activity,
}

abbrev from_alice : Sender
from_alice = record {
  participant = alice;
  user_id = some "usr_alice";
  role = none;
  fresh_id = "run_3";
}

waiting-IsConsistent : IsConsistent waiting
waiting-IsConsistent = record { durable = refl; bounded = omega arith; matched = refl }

executing-IsConsistent : IsConsistent executing_host
executing-IsConsistent = record { durable = refl; bounded = omega arith; matched = refl }

-- A run is aborted while its pull request is awaited, so that the next one begins, and the pull
-- request settles then.
abbrev publishing_host : Host
publishing_host =
    host_of (meta_in creating_pr (some (run_in "run_1" AgentRunState.publishing)) (second_run ∷ []))

abbrev aborted : Host
aborted = dispatch_client_message abort from_alice publishing_host

publishing-IsConsistent : IsConsistent publishing_host
publishing-IsConsistent = record { durable = refl; bounded = omega arith; matched = refl }

pushed_test : awaits_pull_request publishing_host ≡ true
unfolding awaits_pull_request
pushed_test = refl

next_run_test : aborted.meta.state ≡ executing
unfolding dispatch_client_message handle_abort abort_active ensure_active_run is_terminal_state
    transition is_valid_transition save_meta emit finish_aborted finish_run_and_drain_queue
    drain_queue take_next finish_active_agent_run start_with reset_for begin_phase enter_phase
    begin_executing announce set_active_run_state send_to_sandbox update_directory
    cancel_open_questions abort_run record_session_activity start_run live_sandbox_sockets
    list_open_question_ids send_cancellations sandbox_alarm_deadlines mark_activity is_throttled
    should_pause_sandbox idle_pause_input
next_run_test = refl

not_retrying_test : aborted.meta.state ≢ retrying
not_retrying_test e = absurd (ground (arith, next_run_test, e))

reached-IsConsistent_example :
    IsConsistent (settle_pull_request (some "https://example.org/1") aborted)
reached-IsConsistent_example =
    reached-IsConsistent publishing_host 0
      (settle_pull_request (some "https://example.org/1") aborted) publishing-IsConsistent
      (published (some "https://example.org/1")
        (next (pushed begin pushed_test) (by_client abort from_alice)) not_retrying_test)

dispatch_client_message-IsConsistent_example :
    IsConsistent (dispatch_client_message approve from_alice waiting)
dispatch_client_message-IsConsistent_example =
    dispatch_client_message-IsConsistent approve from_alice waiting waiting-IsConsistent

dispatch_sandbox_message-IsConsistent_example :
    IsConsistent
      (dispatch_sandbox_message (agent_turn_complete "run_1" "Done." cost) executing_host)
dispatch_sandbox_message-IsConsistent_example =
    dispatch_sandbox_message-IsConsistent (agent_turn_complete "run_1" "Done." cost) executing_host
      executing-IsConsistent tt

first_approval_wins_example :
    IsApproved "Alice" waiting (handle_approve "Alice" none waiting)
    × (ensure_active_run none (handle_approve "Alice" none waiting)
          ≡ (handle_approve "Alice" none waiting, true)
        → (handle_approve "Bob" none (handle_approve "Alice" none waiting)
            ≡ emit (approved_already "Alice") (handle_approve "Alice" none waiting))
          × (handle_refine "Use MySQL" "Bob" none (handle_approve "Alice" none waiting)
              ≡ emit (approved_already "Alice") (handle_approve "Alice" none waiting)))
unfolding ensure_active_run
first_approval_wins_example =
    first_approval_wins "Alice" "Bob" "Use MySQL" none none waiting refl refl

queue-HasFailed_example :
    HasFailed
      (second_run ∷ [])
      executing_host
      (finish_run_and_drain_queue AgentRunState.failed executing_host)
queue-HasFailed_example = queue-HasFailed AgentRunState.failed executing_host refl

next_run-HasBegun_example :
    HasBegun (start_run second_run) [] (finish_run_and_drain_queue AgentRunState.completed between)
next_run-HasBegun_example =
    next_run-HasBegun AgentRunState.completed between second_run [] refl refl

late_pull_request_example :
    let g = handle_abort "Alice" none publishing_host in
    let f = settle_pull_request (some "https://example.org/1") g in
    HasBegun (start_run second_run) [] g
    × (f
        ≡ finish_run_and_drain_queue AgentRunState.completed (
            emit
              (Event.agent_run_completed second_run.id (truthy (some "https://example.org/1")))
              (return_ready g)))
    × (f.meta.active_run ≡ none)
late_pull_request_example =
    late_pull_request "Alice" "https://example.org/1" (run_in "run_1" AgentRunState.publishing)
      second_run publishing_host refl refl refl

abort_refused_example :
    handle_abort "Alice" none retrying_host ≡ emit (refused_transition retrying ready) retrying_host
unfolding ensure_active_run
abort_refused_example = abort_refused "Alice" none retrying_host refl refl

complete_while_retrying_example :
    let g = dispatch_sandbox_message (pr_created "https://example.org/1") retrying_host in
    (g.meta.state ≡ retrying) × (g.meta.active_run ≡ none) × (IsConsistent g → ⊥)
complete_while_retrying_example =
    complete_while_retrying "https://example.org/1" (run_in "run_1" AgentRunState.executing)
      retrying_host refl refl refl

refused_transition_test :
    refused_transition retrying ready ≡ Event.error "Invalid transition: retrying → ready" none
unfolding state_name
refused_transition_test = refl
