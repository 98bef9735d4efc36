-- ===== src/Coordinator.antt =====
-- packages/worker/src/orchestrator/agent-run-coordinator.ts: the active run of a session and the
-- queue behind it, and packages/worker/src/multiplayer.ts: who decided on a plan first.
mod Steps
pub mod Frame
pub mod Drain
pub mod Consistent
pub mod Queue
unfoldable pub use Steps.*
use codevil.Base.{
  ℕ, Bool, true, false, not, ◌&&◌, String, List, [], ◌∷◌, Option, none, some, is_some, str_eq, ◌==◌,
  if◌then◌else◌,
}
use codevil.Text.{concat, truthy}
use codevil.Session.{
  SessionState, ready, planning, executing, is_state, is_valid_transition, state_name,
}
use codevil.Room.{AgentRun, AgentRunState}
use codevil.AgentRuns.{finish_active_agent_run, AgentRunQueueResult}
use codevil.Host.{
  Host, SessionMeta, Event, SandboxMessage, Phase, with_meta, save_meta, emit, transition,
  send_to_sandbox, update_directory, no_patch,
}
use codevil.Activity.{record_activity}

-- What starting a run needs of `finishRunAndDrainQueue`, which starts the next run in turn.
abbrev pub Finish : Type 0
Finish = AgentRunState → Host → Host

unfoldable pub return_ready : Host → Host
return_ready h =
    if not (is_state h.meta.state ready) && is_valid_transition h.meta.state ready
    then (transition ready h).0
    else h

unfoldable pub fail_run_with : Finish → String → Host → Host
fail_run_with finish message h = elim h.meta.active_run [
  | none ↦ h
  | some run ↦
      finish AgentRunState.failed (return_ready (emit (Event.agent_run_failed run.id message) h))
]

unfoldable pub cannot_start : SessionState → String
cannot_start state = concat ("Cannot start agent run in state: " ∷ state_name state ∷ [])

-- The meta of a run that begins.
unfoldable pub reset_for : AgentRun → SessionMeta → SessionMeta
reset_for run m = record m {
  active_run = some run;
  prompt = run.text;
  latest_plan = none;
  refinement_round = 0;
  verification_attempts = 0;
  last_decision = none;
}

unfoldable pub announce : AgentRun → Phase → String → SandboxMessage → Host → Host
announce run phase model message h =
    send_to_sandbox message
      (emit (Event.phase phase model) (emit (Event.agent_run_started run.id run.actor run.text) h))

unfoldable pub begin_planning : AgentRun → Host → Host
begin_planning run h =
    announce run Phase.planning m.plan_model
      (SandboxMessage.plan run.id run.text m.plan_model m.provider)
      (set_active_run_state AgentRunState.thinking h)
  where
    m : SessionMeta
    m = h.meta

unfoldable pub begin_executing : AgentRun → Host → Host
begin_executing run h =
    announce run Phase.executing m.exec_model
      (SandboxMessage.agent_turn run.id run.text m.exec_model m.provider)
      (set_active_run_state AgentRunState.executing h)
  where
    m : SessionMeta
    m = h.meta

-- `startAgentRun` from `host.transition` on: `state` is the phase that the run begins with.
unfoldable pub enter_phase : Finish → AgentRun → SessionState → (Host → Host) → Host → Host
enter_phase finish run state begin h =
    let (h', moved) = transition state h in
    if moved then begin h' else fail_run_with finish (cannot_start h'.meta.state) h'

unfoldable pub begin_phase : Finish → AgentRun → Host → Host
begin_phase finish run h =
    if run.plan_first
    then enter_phase finish run planning (begin_planning run) h
    else enter_phase finish run executing (begin_executing run) h

unfoldable pub start_with : Finish → AgentRun → Host → Host
start_with finish run h0 =
    let h = save_meta (with_meta (reset_for run h0.meta) h0) in
    if not (is_state h.meta.state ready)
    then finish AgentRunState.failed
        (emit (Event.agent_run_failed run.id (cannot_start h.meta.state)) h)
    else begin_phase finish run h

-- The active run, its state changed to the one that it ends in.
unfoldable pub end_active : AgentRunState → Option AgentRun → Option AgentRun
end_active final none = none
end_active final (some run) = some (record run { state = final })

unfoldable pub run_state_of : Option AgentRun → Option AgentRunState
run_state_of none = none
run_state_of (some run) = some run.state

-- `finishRunAndDrainQueue` up to the start of the next run.
unfoldable pub take_next : AgentRunState → Host → Host
take_next final h =
    let next =
      finish_active_agent_run
        (record { active = end_active final h.meta.active_run; queue = h.meta.queued_runs }) in
    active_run_patch (run_state_of next.active) (
      save_meta
        (with_meta (record h.meta { active_run = next.active; queued_runs = next.queue }) h))

-- The circle of `startAgentRun` and `finishRunAndDrainQueue`, by recursion on the queue: the list
-- is the session's queue, whose head the run that is finished makes room for.
unfoldable pub drain_queue : List AgentRun → Finish
drain_queue [] final h = record_activity (take_next final h)
drain_queue (next ∷ rest) final h =
    let h' = take_next final h in
    record_activity (elim h'.meta.active_run [
      | none ↦ h'
      | some started ↦ start_with (drain_queue rest) started h'
    ])

unfoldable pub finish_run_and_drain_queue : AgentRunState → Host → Host
finish_run_and_drain_queue final h = drain_queue h.meta.queued_runs final h

unfoldable pub start_agent_run : AgentRun → Host → Host
start_agent_run run h = start_with finish_run_and_drain_queue run h

unfoldable pub fail_active_run_and_return_ready : String → Host → Host
fail_active_run_and_return_ready = fail_run_with finish_run_and_drain_queue

unfoldable pub complete_active_run : Option String → Host → Host
complete_active_run pr_url h = elim h.meta.active_run [
  | none ↦ h
  | some run ↦
      finish_run_and_drain_queue AgentRunState.completed
        (emit (Event.agent_run_completed run.id (truthy pr_url)) (return_ready h))
]
