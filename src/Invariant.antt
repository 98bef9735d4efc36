-- ===== src/Invariant.antt =====
-- The invariant of a session along any sequence of the messages and the deadlines that it handles.
use codevil.Base.{ℕ, suc, ◌≢◌, ◌≤◌, ◌≡◌, Bool, true, List, Option, none, some, String, arith}
use codevil.Session.{provisioning_sandbox, retrying, is_valid_transition}
use codevil.Host.{Host, save_meta, transition, emit}
use codevil.Consistency.{IsConsistent}
use codevil.Coordinator.Consistent.{complete_active_run-IsConsistent, fail_active_run-IsConsistent}
use codevil.CliHandlers.Consistent.{
  handle_approve-IsConsistent, handle_abort-IsConsistent, handle_refine-IsConsistent,
}
use codevil.CliHandlers.Requests.{
  handle_human_message-IsConsistent, handle_agent_request-IsConsistent,
  handle_annotation_create-IsConsistent, handle_annotation_reply-IsConsistent,
  handle_annotation_withdraw-IsConsistent, handle_question_assign-IsConsistent,
  handle_question_answer-IsConsistent, handle_preview_start-IsConsistent,
  handle_preview_stop-IsConsistent, apply_question_answer-IsConsistent,
}
use codevil.QuestionAnswer.{AnswerQuestionInput, apply_question_answer}
use codevil.Teardown.{expire_session_at_max_time, fail_expired_sandbox_reconnect}
use codevil.Teardown.Consistent.{
  handle_stop_session-IsConsistent, expire_session-IsConsistent, fail_expired-IsConsistent,
}
use codevil.SandboxHandlers.{
  SandboxInput, dispatch_sandbox_message, awaits_pull_request, settle_pull_request,
}
use codevil.SandboxHandlers.Consistent.{IsTimely, dispatch_sandbox_message-IsConsistent}
use codevil.Connection.{SandboxSocket}
use codevil.Pausing.{
  begin_pause, end_pause, PauseOutcome, ResumeOutcome, settle_attempt, fail_sandbox_resume,
  LeaseOutcome, settle_lease,
}
use codevil.Pausing.Consistent.{
  begin_pause-IsConsistent, end_pause-IsConsistent, settle_attempt-IsConsistent,
  fail_resume-IsConsistent, settle_lease-IsConsistent,
}
use codevil.Reconnecting.{accept_sandbox_web_socket, close_sandbox_web_socket, AlarmAnswers, alarm}
use codevil.Reconnecting.Consistent.{
  IsSafe, accept-IsConsistent, close-IsConsistent, alarm-IsConsistent,
}
use codevil.ClientMessages.{
  ClientMessage, Sender, dispatch_client_message, human_message, agent_request, annotation_create,
  annotation_reply, annotation_withdraw, question_assign, question_answer, approve, abort,
  stop_session, preview_stop, approve_run, abort_run, refine_plan, refine_run, preview_start,
}

-- Every message of a client, of any kind and in any state of the session, keeps the session
-- consistent: its row is up to date, at most five rounds of refinement have been made, and the
-- active run's state is the one that goes with the session's state.
pub dispatch_client_message-IsConsistent :
    (msg : ClientMessage) (s : Sender) (h : Host)
    → IsConsistent h
    → IsConsistent (dispatch_client_message msg s h)
unfolding dispatch_client_message
dispatch_client_message-IsConsistent (human_message text) s h c =
    handle_human_message-IsConsistent _ _ _ h c
dispatch_client_message-IsConsistent (agent_request text plan_first) s h c =
    handle_agent_request-IsConsistent _ _ _ _ _ h c
dispatch_client_message-IsConsistent (annotation_create run_id round anchor comment) s h c =
    handle_annotation_create-IsConsistent _ _ _ _ _ _ h c
dispatch_client_message-IsConsistent (annotation_reply thread_id comment) s h c =
    handle_annotation_reply-IsConsistent _ _ _ _ h c
dispatch_client_message-IsConsistent (annotation_withdraw thread_id) s h c =
    handle_annotation_withdraw-IsConsistent _ _ h c
dispatch_client_message-IsConsistent (question_assign request_id assigned_to) s h c =
    handle_question_assign-IsConsistent _ _ _ _ _ h c
dispatch_client_message-IsConsistent (question_answer request_id option_ids freeform) s h c =
    handle_question_answer-IsConsistent _ _ _ _ _ _ h c
dispatch_client_message-IsConsistent approve s h c = handle_approve-IsConsistent _ _ h c
dispatch_client_message-IsConsistent (approve_run run_id) s h c =
    handle_approve-IsConsistent _ _ h c
dispatch_client_message-IsConsistent abort s h c = handle_abort-IsConsistent _ _ h c
dispatch_client_message-IsConsistent (abort_run run_id) s h c = handle_abort-IsConsistent _ _ h c
dispatch_client_message-IsConsistent stop_session s h c = handle_stop_session-IsConsistent h c
dispatch_client_message-IsConsistent (refine_plan feedback) s h c =
    handle_refine-IsConsistent _ _ _ h c
dispatch_client_message-IsConsistent (refine_run run_id feedback) s h c =
    handle_refine-IsConsistent _ _ _ h c
dispatch_client_message-IsConsistent (preview_start app_key) s h c =
    handle_preview_start-IsConsistent _ h c
dispatch_client_message-IsConsistent preview_stop s h c = handle_preview_stop-IsConsistent h c

-- One thing that happens to a session: a message, an answer through an integration, a socket of the
-- sandbox that comes or goes, a call to the provider that is begun or answered, an alarm, a deadline
-- that passed, or time.
pub data IsStep (h : Host) : Host → Type 0 where
  by_client : (msg : ClientMessage) (s : Sender) → IsStep h (dispatch_client_message msg s h)
  by_sandbox : (m : SandboxInput) → IsTimely m h → IsStep h (dispatch_sandbox_message m h)
  by_integration : (input : AnswerQuestionInput) → IsStep h (apply_question_answer input h).0
  provisioning : IsStep h (transition provisioning_sandbox h).0
  timed_out : (now : ℕ) → IsStep h (expire_session_at_max_time now h).0
  not_reconnected : IsStep h (fail_expired_sandbox_reconnect h)
  socket_taken : (socket : SandboxSocket) → IsStep h (accept_sandbox_web_socket socket h).0
  socket_closed : (socket : SandboxSocket) → IsStep h (close_sandbox_web_socket socket h)
  socket_dropped : (sockets : List SandboxSocket) → IsStep h (record h { sockets = sockets })
  pause_begun : (now : ℕ) → IsStep h (begin_pause now h)
  pause_answered : (outcome : PauseOutcome) (now : ℕ) → IsStep h (end_pause outcome now h)
  resume_begun : (resuming : Bool) → IsStep h (record h { resuming = resuming })
  resume_answered : (outcome : ResumeOutcome) (now : ℕ) → IsStep h (settle_attempt outcome now h)
  resume_given_up : IsStep h (fail_sandbox_resume h)
  lease_answered : (outcome : LeaseOutcome) (now : ℕ) → IsStep h (settle_lease outcome now h)
  alarmed :
      (answers : AlarmAnswers)
      → IsSafe answers.during_lease
      → IsSafe answers.during_pause
      → IsStep h (alarm answers h)
  later : (now : ℕ) → h.now ≤ now → IsStep h (record h { now = now })

-- The states of a session that began as `h`, with the number of pull requests that it waits for. Each
-- was asked for in the state that `handleBranchPushed` demands, and settles when it is there: whatever
-- happened in between, but not while verification is retried.
pub data IsReached (h : Host) : ℕ → Host → Type 0 where
  begin : IsReached h 0 h
  next : {n : ℕ} {g f : Host} → IsReached h n g → IsStep g f → IsReached h n f
  pushed :
      {n : ℕ} {g : Host} → IsReached h n g → awaits_pull_request g ≡ true → IsReached h (suc n) g
  published :
      {n : ℕ} {g : Host} (url : Option String)
      → IsReached h (suc n) g
      → g.meta.state ≢ retrying
      → IsReached h n (settle_pull_request url g)

settled-IsConsistent :
    (url : Option String) (h : Host)
    → IsConsistent h
    → h.meta.state ≢ retrying
    → IsConsistent (settle_pull_request url h)
unfolding settle_pull_request
settled-IsConsistent none h c r = fail_active_run-IsConsistent _ h c r
settled-IsConsistent (some url) h c r = complete_active_run-IsConsistent _ h c r

provisioning-IsConsistent :
    (h : Host) → IsConsistent h → IsConsistent (transition provisioning_sandbox h).0
unfolding transition is_valid_transition save_meta emit
provisioning-IsConsistent h c = ground arith

later-IsConsistent : (now : ℕ) (h : Host) → IsConsistent h → IsConsistent (record h { now = now })
later-IsConsistent now h c = ground arith

dropped-IsConsistent :
    (sockets : List SandboxSocket) (h : Host)
    → IsConsistent h
    → IsConsistent (record h { sockets = sockets })
dropped-IsConsistent sockets h c = ground arith

resuming-IsConsistent :
    (resuming : Bool) (h : Host) → IsConsistent h → IsConsistent (record h { resuming = resuming })
resuming-IsConsistent resuming h c = ground arith

step-IsConsistent : {h g : Host} → IsStep h g → IsConsistent h → IsConsistent g
step-IsConsistent (by_client msg s) c = dispatch_client_message-IsConsistent msg s _ c
step-IsConsistent (by_sandbox m t) c = dispatch_sandbox_message-IsConsistent m _ c t
step-IsConsistent (by_integration input) c = apply_question_answer-IsConsistent input _ c
step-IsConsistent provisioning c = provisioning-IsConsistent _ c
step-IsConsistent (timed_out now) c = expire_session-IsConsistent now _ c
step-IsConsistent not_reconnected c = fail_expired-IsConsistent _ c
step-IsConsistent (socket_taken socket) c = accept-IsConsistent socket _ c
step-IsConsistent (socket_closed socket) c = close-IsConsistent socket _ c
step-IsConsistent (socket_dropped sockets) c = dropped-IsConsistent sockets _ c
step-IsConsistent (pause_begun now) c = begin_pause-IsConsistent now _ c
step-IsConsistent (pause_answered outcome now) c = end_pause-IsConsistent outcome now _ c
step-IsConsistent (resume_begun resuming) c = resuming-IsConsistent resuming _ c
step-IsConsistent (resume_answered outcome now) c = settle_attempt-IsConsistent outcome now _ c
step-IsConsistent resume_given_up c = fail_resume-IsConsistent _ c
step-IsConsistent (lease_answered outcome now) c = settle_lease-IsConsistent outcome now _ c
step-IsConsistent (alarmed answers l p) c = alarm-IsConsistent answers _ l p c
step-IsConsistent (later now l) c = later-IsConsistent now _ c

-- A session that starts out consistent is so after any sequence of client messages, sandbox messages,
-- answers through integrations, sockets of the sandbox that come and go, begun and answered pauses,
-- resumes and renewals of its lease, alarms, passed deadlines, ticks of the clock, and pull requests
-- that were asked for earlier in the sequence and settle, whatever happened since: its row is up to
-- date, at most five rounds of refinement have been made, and the active run's state is the one that
-- goes with the session's. No pull request may be reported or settle while verification is retried,
-- no brief may come for the last round of refinement, and what runs while an alarm waits must itself
-- keep the session consistent.
pub reached-IsConsistent :
    (h : Host) (n : ℕ) (g : Host) → IsConsistent h → IsReached h n g → IsConsistent g
reached-IsConsistent h _ _ c begin = c
reached-IsConsistent h _ _ c (next r s) = step-IsConsistent s (reached-IsConsistent h _ _ c r)
reached-IsConsistent h _ _ c (pushed r a) = reached-IsConsistent h _ _ c r
reached-IsConsistent h _ _ c (published url r s) =
    settled-IsConsistent url _ (reached-IsConsistent h _ _ c r) s
