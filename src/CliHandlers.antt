-- ===== src/CliHandlers.antt =====
-- packages/worker/src/orchestrator/cli-handlers.ts: what the session does for its clients. An
-- argument `id` is the identifier that the handler generates.
mod Annotating
mod Deciding
mod Asking
pub mod Frame
pub mod Cancelling
pub mod Consistent
pub mod Requests
pub mod Decisions
unfoldable pub use Annotating.*
unfoldable pub use Deciding.*
unfoldable pub use Asking.*
use mathlib.Core.Option
use codevil.Base.{
  Bool, true, false, not, ◌&&◌, String, List, [], ◌∷◌, Option, none, some, is_empty, is_some,
  str_eq, if◌then◌else◌, get_or_else,
}
use codevil.Text.{trim, truthy}
use codevil.Session.{ready, is_state}
use codevil.Room.{ParticipantIdentity, AgentRun, AgentRunState}
use codevil.AgentRuns.{create_agent_run, enqueue_agent_run, AgentRunQueueResult}
use codevil.Host.{
  Host, Event, with_meta, save_meta, emit, update_directory, no_patch, request_sandbox_resume,
}
use codevil.Activity.{sandbox_socket_attached, record_activity}
use codevil.Coordinator.{finish_run_and_drain_queue, start_agent_run}

unfoldable pub handle_human_message : String → ParticipantIdentity → String → Host → Host
handle_human_message text actor id h =
    if str_eq (trim text) ""
    then h
    else update_directory no_patch (emit (Event.human_message id actor (trim text) h.now) h)

-- `drainQueuedAgentWorkIfReady` of packages/worker/src/orchestrator/sandbox-session-lifecycle.ts,
-- which `handleAgentRequest` repeats.
unfoldable pub drain_queued_agent_work_if_ready : Host → Host
drain_queued_agent_work_if_ready h =
    if is_state h.meta.state ready
      && not (is_some h.meta.active_run)
      && not (is_empty h.meta.queued_runs)
      && sandbox_socket_attached h
    then finish_run_and_drain_queue AgentRunState.completed h
    else h

unfoldable pub wake_if_paused : Host → Host
wake_if_paused h = if is_some h.meta.sandbox_paused_at then request_sandbox_resume h else h

-- The run is queued, or it is active and starts.
unfoldable pub admit_run : AgentRunQueueResult → Host → Host
admit_run next h0 =
    let h =
      save_meta
        (with_meta (record h0.meta { active_run = next.active; queued_runs = next.queue }) h0) in
    elim next.queued [
      | some q ↦ update_directory no_patch (emit (Event.agent_request_queued q.run.id q.position) h)
      | none ↦ elim next.started [ none ↦ h | some run ↦ start_agent_run run h ]
    ]

unfoldable pub request_run : AgentRun → Option String → Host → Host
request_run run display_text h0 =
    let text = get_or_else (truthy (Option.map trim display_text)) run.text in
    let h = emit (Event.agent_request run.id run.actor text run.created_at) h0 in
    let next =
      enqueue_agent_run (record { active = h.meta.active_run; queue = h.meta.queued_runs }) run
        (is_state h.meta.state ready && sandbox_socket_attached h0) in
    admit_run next h

unfoldable pub handle_agent_request :
    String → ParticipantIdentity → Bool → Option String → String → Host → Host
handle_agent_request text actor plan_first display_text id h0 =
    if str_eq (trim text) ""
    then h0
    else let h = drain_queued_agent_work_if_ready (wake_if_paused (record_activity h0)) in
      request_run (create_agent_run actor (trim text) h.now id plan_first) display_text h
