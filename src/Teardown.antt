-- ===== src/Teardown.antt =====
-- How a session ends: the sandbox is torn down (`terminateSandbox` and `failSession` of
-- packages/worker/src/orchestrator/sandbox-session-lifecycle.ts), the user stops the session, or a
-- time limit passes (packages/worker/src/orchestrator.ts). The call that destroys the sandbox at
-- its provider leaves the session's state alone and is left out.
pub mod Outstanding
pub mod Consistent
use codevil.Base.{
  ℕ, ◌+◌, ◌-◌, Bool, true, false, not, ◌&&◌, String, List, [], ◌∷◌, Option, none, some, is_some,
  leb, if◌then◌else◌,
}
use codevil.Text.{concat}
use codevil.Session.{SessionState, failed, timed_out, is_terminal_state}
use codevil.Room.{AgentRun, AgentRunState, RoomState, SandboxState}
use codevil.Connection.{close_sandbox_sockets}
use codevil.Host.{
  Host, Event, DirectoryPatch, with_meta, save_meta, emit, fail_with, transition, update_directory,
  revoke_preview,
}
use codevil.Activity.{arm_next_alarm}
use codevil.CliHandlers.{cancel_open_questions, active_run_id, only_if}

-- The part of `terminateSandbox` that changes the session.
unfoldable pub terminate_sandbox : Host → Host
terminate_sandbox h0 = record h { sockets = close_sandbox_sockets h.sockets }
  where
    h : Host
    h = save_meta (
        with_meta
          (record h0.meta {
            expected_close = true;
            sandbox_paused_at = none;
            pending_preview_action = none;
          })
          h0)

unfoldable pub cancel_questions_of : Option String → String → Host → Host
cancel_questions_of none reason h = h
cancel_questions_of (some run_id) reason h = cancel_open_questions run_id reason h

unfoldable pub fail_if_live : Host → Host
fail_if_live h = if not (is_terminal_state h.meta.state) then (transition failed h).0 else h

unfoldable pub handle_stop_session : Host → Host
handle_stop_session h0 =
    let h = fail_if_live h0 in
    arm_next_alarm (h0.now - 1) (
      terminate_sandbox (
        revoke_preview (
          emit (Event.status "Stopping sandbox container…" none)
            (cancel_questions_of (active_run_id h) "session stopped" h))))

unfoldable pub expire_session_at_max_time : ℕ → Host → Host × Bool
expire_session_at_max_time now h0 = elim h0.meta.max_time_ms [
  | none ↦ (h0, false)
  | some limit ↦ if not (leb (h0.meta.created_at + limit) now) then (h0, false) else (
    terminate_sandbox (
        fail_with (concat ("Session timed out after " ∷ h0.meta.max_time ∷ "." ∷ []))
          (cancel_questions_of (active_run_id h0) "session timed out" (transition timed_out h0).0)),
    true,
  )
]

unfoldable pub fail_queued : String → List AgentRun → Host → Host
fail_queued message [] h = h
fail_queued message (run ∷ runs) h =
    fail_queued message runs (emit (Event.agent_run_failed run.id message) h)

unfoldable pub fail_active : String → String → Host → Host
fail_active message question_reason h = elim h.meta.active_run [
  | none ↦ h
  | some run ↦ emit (Event.agent_run_failed run.id message) (
      cancel_open_questions run.id question_reason (
        with_meta
          (record h.meta { active_run = some (record run { state = AgentRunState.failed }) }) h))
]

unfoldable pub fail_outstanding_runs : String → String → Host → Host
fail_outstanding_runs message question_reason h0 =
    save_meta (with_meta (record h.meta { queued_runs = [] }) h)
  where
    h : Host
    h = fail_queued message h0.meta.queued_runs (fail_active message question_reason h0)

abbrev pub failed_patch : Option String → DirectoryPatch
failed_patch run_id = record {
  room_state = some RoomState.failed;
  sandbox_state = some SandboxState.failed;
  active_run_state = some (elim run_id [ none ↦ none | some id ↦ some AgentRunState.failed ]);
}

unfoldable pub fail_session : String → String → Host → Host × Bool
fail_session message question_reason h0 =
    if is_terminal_state h0.meta.state
    then (h0, false)
    else let (h1, moved) = transition failed h0 in
      let h2 =
        with_meta (record h1.meta { sandbox_paused_at = none; pending_preview_action = none }) h1 in
      if moved
      then (
        update_directory (failed_patch (active_run_id h2))
            (fail_with message (fail_outstanding_runs message question_reason h2)),
        true,
      )
      else (h1, false)

unfoldable pub fail_reconnecting_run : String → Host → Host
fail_reconnecting_run message h = elim h.meta.active_run [
  | none ↦ h
  | some run ↦ emit (Event.agent_run_failed run.id message) (
      cancel_open_questions run.id "sandbox reconnect timed out" (
        save_meta (
          with_meta
            (record h.meta { active_run = some (record run { state = AgentRunState.failed }) }) h)))
]

unfoldable pub fail_expired_sandbox_reconnect : Host → Host
fail_expired_sandbox_reconnect h0 =
    if not (is_some h0.meta.sandbox_disconnected_at)
    then h0
    else arm_next_alarm (h0.now - 1) (
        terminate_sandbox (
          update_directory (failed_patch (active_run_id h0))
            (fail_with message (fail_reconnecting_run message (transition failed h0).0))))
  where
    message : String
    message = "Sandbox did not reconnect within 60 seconds."
