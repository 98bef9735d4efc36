-- ===== src/Reconnecting.antt =====
-- The sandbox's socket and the session's alarm in packages/worker/src/orchestrator.ts, with
-- `completeSandboxReconnect` of packages/worker/src/sandbox-connection.ts. What the alarm does for
-- the event log, for cards in a conversation and for the workspace cache is not part of it here.
pub mod Consistent
pub mod Deadlines
use codevil.Base.{
  ℕ, ◌+◌, ◌-◌, Bool, true, false, not, ◌&&◌, String, List, [], ◌∷◌, Option, none, some, is_some,
  length, leb, str_eq, if◌then◌else◌,
}
use codevil.Text.{concat, trim}
use codevil.Session.{provisioning_sandbox, timed_out, is_state, is_terminal_state}
use codevil.Connection.{
  SandboxSocket, SandboxConnectionMode, initialize, resume, reject, live_sandbox_sockets,
  sandbox_connection_mode, is_unexpected_sandbox_disconnect, sandbox_reconnect_expired,
  sandbox_reconnect_directory_state,
}
use codevil.Host.{Host, Event, with_meta, save_meta, emit, fail_with, transition, update_directory}
use codevil.Activity.{arm_next_alarm}
use codevil.CliHandlers.{drain_queued_agent_work_if_ready, active_run_id}
use codevil.Preview.{flush_pending_preview_action}
use codevil.Teardown.{
  terminate_sandbox, cancel_questions_of, expire_session_at_max_time,
  fail_expired_sandbox_reconnect,
}
use codevil.Pausing.{
  sandbox_patch, start_reconnect_grace, wants_pause, begin_pause, end_pause, PauseOutcome,
  clear_stale_paused_marker, assume_sandbox_paused_after_eviction, lease_is_due, settle_lease,
  LeaseOutcome,
}

unfoldable pub complete_sandbox_reconnect : Host → Host
complete_sandbox_reconnect h0 =
    update_directory (sandbox_patch (sandbox_reconnect_directory_state h.meta.state)) h
  where
    h : Host
    h =
        emit (Event.status "Sandbox reconnected." none)
          (save_meta (with_meta (record h0.meta { sandbox_disconnected_at = none }) h0))

abbrev pub finish_reconnect : SandboxConnectionMode → Host → Host
finish_reconnect resume h = let g = complete_sandbox_reconnect h in arm_next_alarm g.now g
finish_reconnect _ h = h

-- `h` before the socket is taken, and `g` after.
abbrev pub take_socket : SandboxConnectionMode → Host → Host → Host × Bool
take_socket reject h g = (h, false)
take_socket _ h g = ((flush_pending_preview_action g).0, true)

-- `acceptSandboxWebSocket` for a request with a valid token of this session; the flag says whether
-- the socket is taken. The greeting, which goes to the new socket alone, is left out.
unfoldable pub accept_sandbox_web_socket : SandboxSocket → Host → Host × Bool
accept_sandbox_web_socket socket h0 =
    let mode =
      sandbox_connection_mode h0.meta.state h0.meta.sandbox_disconnected_at
        (length (live_sandbox_sockets h0.sockets)) in
    let h =
      finish_reconnect mode
        (drain_queued_agent_work_if_ready (record h0 { sockets = socket ∷ h0.sockets })) in
    take_socket mode h0 h

-- `webSocketClose` for a socket of the sandbox, which the runtime still lists.
unfoldable pub close_sandbox_web_socket : SandboxSocket → Host → Host
close_sandbox_web_socket socket h =
    if is_unexpected_sandbox_disconnect h.meta.expected_close h.meta.state socket h.sockets
    then arm_next_alarm h.now (start_reconnect_grace h)
    else h

timeout_message : String → String
timeout_message output =
    if str_eq output ""
    then "Sandbox failed to connect within 60 seconds. No process output captured."
    else concat ("Sandbox process failed:\n" ∷ output ∷ [])

-- `output` is what the sandbox's process wrote, its two logs joined.
unfoldable pub time_out_provisioning : String → Host → Host
unfolding timeout_message
time_out_provisioning output h = arm_next_alarm (h.now - 1) (
    terminate_sandbox (
      fail_with (timeout_message (trim output))
        (cancel_questions_of (active_run_id h) "session timed out" (transition timed_out h).0)))

-- A handler that runs while the alarm waits for the provider.
abbrev pub Meanwhile : Type 0
Meanwhile = Host → Host

unfoldable pub renew_sandbox_lease_if_due : Meanwhile → LeaseOutcome → ℕ → Host → Host
renew_sandbox_lease_if_due meanwhile outcome now h =
    if lease_is_due now h then settle_lease outcome now (meanwhile h) else h

unfoldable pub pause_idle_sandbox : Meanwhile → PauseOutcome → ℕ → Host → Host
pause_idle_sandbox meanwhile outcome now h =
    if wants_pause now h then end_pause outcome now (meanwhile (begin_pause now h)) else h

-- What the alarm waits for.
pub record AlarmAnswers : Type 0 where
  pub process_output : String
  pub lease : LeaseOutcome
  pub during_lease : Meanwhile
  pub pause : PauseOutcome
  pub during_pause : Meanwhile

unfoldable pub reconnect_is_overdue : ℕ → Host → Bool
reconnect_is_overdue now h = elim h.meta.sandbox_disconnected_at [
  | none ↦ false
  | some at ↦ sandbox_reconnect_expired at now
]

unfoldable pub provisioning_is_overdue : ℕ → Host → Bool
provisioning_is_overdue now h =
    is_state h.meta.state provisioning_sandbox && leb (h.meta.created_at + 60_000) now

-- The sandbox of a session with time left.
unfoldable pub tend_sandbox : AlarmAnswers → ℕ → Host → Host
tend_sandbox answers now h = arm_next_alarm now (
    drain_queued_agent_work_if_ready (
      pause_idle_sandbox answers.during_pause answers.pause now (
        renew_sandbox_lease_if_due answers.during_lease answers.lease now
          (assume_sandbox_paused_after_eviction now (clear_stale_paused_marker h).0).0)))

unfoldable pub alarm_of_live : AlarmAnswers → ℕ → Host → Host
alarm_of_live answers now h =
    if reconnect_is_overdue now h
    then fail_expired_sandbox_reconnect h
    else if provisioning_is_overdue now h
    then time_out_provisioning answers.process_output h
    else tend_sandbox answers now h

unfoldable pub alarm : AlarmAnswers → Host → Host
alarm answers h =
    let (g, expired) = expire_session_at_max_time h.now h in
    if is_terminal_state h.meta.state
    then arm_next_alarm h.now h
    else if expired
    then arm_next_alarm (h.now - 1) g
    else alarm_of_live answers h.now g
