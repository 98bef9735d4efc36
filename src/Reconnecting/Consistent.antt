-- ===== src/Reconnecting/Consistent.antt =====
-- The invariant, the sandbox's socket and the alarm (packages/worker/src/orchestrator.ts).
use codevil.Base.{ℕ, String, ◌∷◌, arith, if_rule}
use codevil.Session.{is_terminal_state}
use codevil.Connection.{
  SandboxSocket, SandboxConnectionMode, initialize, resume, reject,
  is_unexpected_sandbox_disconnect,
}
use codevil.Host.{Host, save_meta, emit, update_directory}
use codevil.Consistency.{IsConsistent}
use codevil.Consistency.Steps.{emit-IsConsistent, arm_next_alarm-IsConsistent}
use codevil.CliHandlers.Requests.{drain_queued-IsConsistent}
use codevil.Preview.Replay.{flush-IsConsistent}
use codevil.Teardown.{expire_session_at_max_time}
use codevil.Teardown.Consistent.{
  terminate_sandbox-IsConsistent, cancel_questions_of-IsConsistent, time_out-IsConsistent,
  expire_session-IsConsistent, fail_expired-IsConsistent,
}
use codevil.Pausing.{wants_pause, lease_is_due}
use codevil.Pausing.Consistent.{
  begin_pause-IsConsistent, end_pause-IsConsistent, clear_stale-IsConsistent,
  assume_paused-IsConsistent, settle_lease-IsConsistent, grace-IsConsistent,
}
use codevil.Reconnecting.{
  complete_sandbox_reconnect, finish_reconnect, take_socket, accept_sandbox_web_socket,
  close_sandbox_web_socket, time_out_provisioning, Meanwhile, renew_sandbox_lease_if_due,
  pause_idle_sandbox, AlarmAnswers, reconnect_is_overdue, provisioning_is_overdue, tend_sandbox,
  alarm_of_live, alarm,
}

reconnect-IsConsistent : (h : Host) → IsConsistent h → IsConsistent (complete_sandbox_reconnect h)
unfolding complete_sandbox_reconnect save_meta emit update_directory
reconnect-IsConsistent h c = ground arith

finish-IsConsistent :
    (mode : SandboxConnectionMode) (h : Host)
    → IsConsistent h
    → IsConsistent (finish_reconnect mode h)
finish-IsConsistent initialize h c = c
finish-IsConsistent resume h c = arm_next_alarm-IsConsistent _ _ (reconnect-IsConsistent h c)
finish-IsConsistent reject h c = c

attach-IsConsistent :
    (socket : SandboxSocket) (h : Host)
    → IsConsistent h
    → IsConsistent (record h { sockets = socket ∷ h.sockets })
attach-IsConsistent socket h c = ground arith

taken-IsConsistent :
    (mode : SandboxConnectionMode) (h g : Host)
    → IsConsistent h
    → IsConsistent g
    → IsConsistent (take_socket mode h g).0
taken-IsConsistent initialize h g c d = flush-IsConsistent g d
taken-IsConsistent resume h g c d = flush-IsConsistent g d
taken-IsConsistent reject h g c d = c

pub accept-IsConsistent :
    (socket : SandboxSocket) (h : Host)
    → IsConsistent h
    → IsConsistent (accept_sandbox_web_socket socket h).0
unfolding accept_sandbox_web_socket
accept-IsConsistent socket h c =
    taken-IsConsistent _ h _ c
      (finish-IsConsistent _ _ (drain_queued-IsConsistent _ (attach-IsConsistent socket h c)))

pub close-IsConsistent :
    (socket : SandboxSocket) (h : Host)
    → IsConsistent h
    → IsConsistent (close_sandbox_web_socket socket h)
unfolding close_sandbox_web_socket
close-IsConsistent socket h c =
    if_rule IsConsistent
      (is_unexpected_sandbox_disconnect h.meta.expected_close h.meta.state socket h.sockets)
      (arm_next_alarm-IsConsistent _ _ (grace-IsConsistent h c)) c

time_out_provisioning-IsConsistent :
    (output : String) (h : Host) → IsConsistent h → IsConsistent (time_out_provisioning output h)
unfolding time_out_provisioning
time_out_provisioning-IsConsistent output h c = arm_next_alarm-IsConsistent _ _ (
    terminate_sandbox-IsConsistent _
      (emit-IsConsistent _ _ (cancel_questions_of-IsConsistent _ _ _ (time_out-IsConsistent h c))))

-- A handler that keeps the session consistent.
abbrev pub IsSafe : Meanwhile → Type 0
IsSafe f = (h : Host) → IsConsistent h → IsConsistent (f h)

renew-IsConsistent :
    (answers : AlarmAnswers) (now : ℕ) (h : Host)
    → IsSafe answers.during_lease
    → IsConsistent h
    → IsConsistent (renew_sandbox_lease_if_due answers.during_lease answers.lease now h)
unfolding renew_sandbox_lease_if_due
renew-IsConsistent answers now h s c =
    if_rule IsConsistent (lease_is_due now h)
      (settle_lease-IsConsistent answers.lease now _ (s h c)) c

pause-IsConsistent :
    (answers : AlarmAnswers) (now : ℕ) (h : Host)
    → IsSafe answers.during_pause
    → IsConsistent h
    → IsConsistent (pause_idle_sandbox answers.during_pause answers.pause now h)
unfolding pause_idle_sandbox
pause-IsConsistent answers now h s c =
    if_rule IsConsistent (wants_pause now h)
      (end_pause-IsConsistent answers.pause now _ (s _ (begin_pause-IsConsistent now h c))) c

-- Whatever the alarm finds, and however the provider answers it, a session that was consistent is
-- so when the alarm is done, if the handlers that run while it waits keep sessions consistent.
pub alarm-IsConsistent :
    (answers : AlarmAnswers) (h : Host)
    → IsSafe answers.during_lease
    → IsSafe answers.during_pause
    → IsConsistent h
    → IsConsistent (alarm answers h)
unfolding alarm alarm_of_live tend_sandbox
alarm-IsConsistent answers h l p c =
    let g = (expire_session_at_max_time h.now h).0 in
    let d : IsConsistent g = expire_session-IsConsistent h.now h c in
    if_rule IsConsistent (is_terminal_state h.meta.state) (arm_next_alarm-IsConsistent _ _ c) (
      if_rule IsConsistent (expire_session_at_max_time h.now h).1
        (arm_next_alarm-IsConsistent _ _ d)
        (if_rule IsConsistent (reconnect_is_overdue h.now g) (fail_expired-IsConsistent g d) (
          if_rule IsConsistent (provisioning_is_overdue h.now g)
            (time_out_provisioning-IsConsistent answers.process_output g d)
            (arm_next_alarm-IsConsistent _ _ (
              drain_queued-IsConsistent _ (
                pause-IsConsistent answers h.now _ p (
                  renew-IsConsistent answers h.now _ l
                    (assume_paused-IsConsistent h.now _ (clear_stale-IsConsistent g d)))))))))
