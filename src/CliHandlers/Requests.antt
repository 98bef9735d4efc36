-- ===== src/CliHandlers/Requests.antt =====
-- The invariant and the other handlers of clients
-- (packages/worker/src/orchestrator/cli-handlers.ts).
use codevil.Base.{
  ℕ, ◌≡◌, Bool, true, false, String, List, Option, none, some, arith, inl, inr, Option-cases, not,
  if_rule,
}
use codevil.Session.{ready}
use codevil.Room.{ParticipantIdentity, AgentRun, AgentRunState}
use codevil.Text.{trim}
use codevil.AgentRuns.{enqueue_agent_run, start_run, create_agent_run}
use codevil.Host.{
  Host, SandboxMessage, QuestionRow, start, stop, with_meta, AnnotationAnchor, AnnotationRow,
  PreviewActionType, emit, save_meta, update_directory, request_sandbox_resume,
}
use codevil.Activity.{event, record_activity}
use codevil.QuestionsStore.{AuthRole, is_open, load_question}
use codevil.Consistency.{IsConsistent}
use codevil.Consistency.Steps.{
  emit-IsConsistent, send_to_sandbox-IsConsistent, record_activity-IsConsistent,
  request_sandbox_resume-IsConsistent,
}
use codevil.Coordinator.Consistent.{
  IsBetween, finish_run_and_drain_queue-IsConsistent, start_agent_run-IsConsistent,
}
use codevil.PlanRevisions.{load_annotation, ensure_annotatable_revision}
use codevil.QuestionAnswer.{
  AnswerQuestionInput, apply_question_answer, AnswerResult, Selection, SelectionResult,
  settle_selection, validate_selection, answer_open, accept_answer,
}
use codevil.Preview.{
  preview_unavailable_reason, build_preview_start_message, defer_preview_command,
  handle_preview_start, handle_preview_stop,
}
use codevil.Preview.Replay.{set_pending-IsConsistent}
use codevil.CliHandlers.{
  report, answer_or_deny, handle_human_message, drain_queued_agent_work_if_ready, wake_if_paused,
  admit_run, request_run, handle_agent_request, insert_annotation, handle_annotation_create,
  on_open_annotation, insert_reply, handle_annotation_reply, withdraw_own,
  handle_annotation_withdraw, handle_question_assign, handle_question_answer,
}

pub handle_human_message-IsConsistent :
    (text : String) (actor : ParticipantIdentity) (id : String) (h : Host)
    → IsConsistent h
    → IsConsistent (handle_human_message text actor id h)
unfolding handle_human_message emit update_directory
handle_human_message-IsConsistent text actor id h c = ground arith

wake_if_paused-IsConsistent : (h : Host) → IsConsistent h → IsConsistent (wake_if_paused h)
unfolding wake_if_paused request_sandbox_resume
wake_if_paused-IsConsistent h c = ground arith

pub drain_queued-IsConsistent :
    (h : Host) → IsConsistent h → IsConsistent (drain_queued_agent_work_if_ready h)
unfolding drain_queued_agent_work_if_ready
drain_queued-IsConsistent h c = ground (
  arith,
  λ (b : IsBetween h). finish_run_and_drain_queue-IsConsistent AgentRunState.completed h b,
)

-- A run is started only in a ready session.
admit_run-IsConsistent :
    (run : AgentRun) (session_ready : Bool) (h : Host)
    → IsConsistent h
    → (session_ready ≡ true → h.meta.state ≡ ready)
    → IsConsistent (
        admit_run
          (enqueue_agent_run
            (record { active = h.meta.active_run; queue = h.meta.queued_runs })
            run
            session_ready)
          h)
unfolding admit_run enqueue_agent_run emit save_meta update_directory
admit_run-IsConsistent run session_ready h c r = ground (
  arith,
  start_agent_run-IsConsistent (start_run run)
      (save_meta (with_meta (record h.meta { active_run = some (start_run run) }) h)),
)

request_run-IsConsistent :
    (run : AgentRun) (text : Option String) (h : Host)
    → IsConsistent h
    → IsConsistent (request_run run text h)
unfolding request_run emit
request_run-IsConsistent run text h c =
    admit_run-IsConsistent run _ _ (emit-IsConsistent _ h c) (λ r. ground arith)

pub handle_agent_request-IsConsistent :
    (text : String) (actor : ParticipantIdentity) (plan_first : Bool) (display : Option String)
    (id : String) (h : Host)
    → IsConsistent h
    → IsConsistent (handle_agent_request text actor plan_first display id h)
unfolding handle_agent_request
handle_agent_request-IsConsistent text actor plan_first display id h c =
    ground (arith, request_run-IsConsistent run display g drained)
  where
    g : Host
    g = drain_queued_agent_work_if_ready (wake_if_paused (record_activity h))

    drained : IsConsistent g
    drained =
        drain_queued-IsConsistent _
          (wake_if_paused-IsConsistent _ (record_activity-IsConsistent event h c))

    run : AgentRun
    run = create_agent_run actor (trim text) g.now id plan_first

ensure_annotatable-IsConsistent :
    (run_id : String) (round : ℕ) (h : Host)
    → IsConsistent h
    → IsConsistent (ensure_annotatable_revision run_id round h).0
unfolding ensure_annotatable_revision emit
ensure_annotatable-IsConsistent run_id round h c = ground arith

pub handle_annotation_create-IsConsistent :
    (run_id : String) (round : ℕ) (anchor : AnnotationAnchor) (comment : String)
    (actor : ParticipantIdentity) (id : String) (h : Host)
    → IsConsistent h
    → IsConsistent (handle_annotation_create run_id round anchor comment actor id h)
unfolding handle_annotation_create insert_annotation emit
handle_annotation_create-IsConsistent run_id round anchor comment actor id h c =
    ground (arith, ensure_annotatable-IsConsistent run_id round h c)

on_open_annotation-IsConsistent :
    (thread_id closed : String) (act : AnnotationRow → Host → Host) (h : Host)
    → ((a : AnnotationRow) (g : Host) → IsConsistent g → IsConsistent (act a g))
    → IsConsistent h
    → IsConsistent (on_open_annotation thread_id closed act h)
unfolding on_open_annotation emit
on_open_annotation-IsConsistent thread_id closed act h k c =
    elim (Option-cases (load_annotation h.annotations thread_id)) [
      | inl e ↦ rw (e, on_open_annotation) (emit-IsConsistent _ h c)
      | inr (a, e) ↦
          let checked = ensure_annotatable-IsConsistent a.revision_run_id a.revision_round h c in
          rw (e, on_open_annotation) (ground (arith, checked, k a _ checked))
    ]

pub handle_annotation_reply-IsConsistent :
    (thread_id comment : String) (actor : ParticipantIdentity) (id : String) (h : Host)
    → IsConsistent h
    → IsConsistent (handle_annotation_reply thread_id comment actor id h)
unfolding handle_annotation_reply insert_reply emit
handle_annotation_reply-IsConsistent thread_id comment actor id h c =
    on_open_annotation-IsConsistent thread_id _ _ h (λ a g d. ground arith) c

pub handle_annotation_withdraw-IsConsistent :
    (thread_id : String) (actor : ParticipantIdentity) (h : Host)
    → IsConsistent h
    → IsConsistent (handle_annotation_withdraw thread_id actor h)
unfolding handle_annotation_withdraw withdraw_own emit
handle_annotation_withdraw-IsConsistent thread_id actor h c =
    on_open_annotation-IsConsistent thread_id _ _ h (λ a g d. ground arith) c

defer_preview-IsConsistent :
    (action : PreviewActionType) (key : Option String) (h : Host)
    → IsConsistent h
    → IsConsistent (defer_preview_command action key h).0
unfolding defer_preview_command
defer_preview-IsConsistent action key h c = elim (Option-cases (preview_unavailable_reason h)) [
  | inl e ↦ rw (e, defer_preview_command) (ground (arith, set_pending-IsConsistent none h c))
  | inr (reason, e) ↦
      rw (e, defer_preview_command)
        (emit-IsConsistent _ _ (
          request_sandbox_resume-IsConsistent _
            (record_activity-IsConsistent event _ (set_pending-IsConsistent _ h c))))
]

pub handle_preview_start-IsConsistent :
    (key : Option String) (h : Host) → IsConsistent h → IsConsistent (handle_preview_start key h)
unfolding handle_preview_start
handle_preview_start-IsConsistent key h c =
    let deferred = defer_preview-IsConsistent start key h c in
    ground (
      arith,
      send_to_sandbox-IsConsistent
          (build_preview_start_message (defer_preview_command start key h).0.meta key) _ deferred,
      deferred,
    )

pub handle_preview_stop-IsConsistent :
    (h : Host) → IsConsistent h → IsConsistent (handle_preview_stop h)
unfolding handle_preview_stop
handle_preview_stop-IsConsistent h c =
    let deferred = defer_preview-IsConsistent stop none h c in
    ground (arith, send_to_sandbox-IsConsistent SandboxMessage.preview_stop _ deferred, deferred)

pub handle_question_assign-IsConsistent :
    (id : String) (assignee actor : ParticipantIdentity) (user : Option String)
    (role : Option AuthRole) (h : Host)
    → IsConsistent h
    → IsConsistent (handle_question_assign id assignee actor user role h)
unfolding handle_question_assign emit
handle_question_assign-IsConsistent id assignee actor user role h c = ground arith

accept_answer-IsConsistent :
    (q : QuestionRow) (input : AnswerQuestionInput) (s : Selection) (h : Host)
    → IsConsistent h
    → IsConsistent (accept_answer q input s h)
unfolding accept_answer
accept_answer-IsConsistent q input s h c =
    record_activity-IsConsistent event _
      (send_to_sandbox-IsConsistent _ _ (emit-IsConsistent _ _ (ground arith)))

settle_selection-IsConsistent :
    (q : QuestionRow) (input : AnswerQuestionInput) (r : SelectionResult) (h : Host)
    → IsConsistent h
    → IsConsistent (settle_selection q input r h).0
unfolding settle_selection
settle_selection-IsConsistent q input (SelectionResult.invalid error) h c = c
settle_selection-IsConsistent q input (SelectionResult.selected s) h c =
    accept_answer-IsConsistent q input s h c

answer_open-IsConsistent :
    (q : QuestionRow) (input : AnswerQuestionInput) (h : Host)
    → IsConsistent h
    → IsConsistent (answer_open q input h).0
unfolding answer_open
answer_open-IsConsistent q input h c =
    ground (arith, settle_selection-IsConsistent q input (validate_selection q input) h c)

pub apply_question_answer-IsConsistent :
    (input : AnswerQuestionInput) (h : Host)
    → IsConsistent h
    → IsConsistent (apply_question_answer input h).0
unfolding apply_question_answer
apply_question_answer-IsConsistent input h c =
    elim (Option-cases (load_question h.questions input.request_id)) [
      | inl e ↦ rw (e, apply_question_answer) c
      | inr (q, e) ↦
          rw (e, apply_question_answer) (ground (arith, answer_open-IsConsistent q input h c))
    ]

report-IsConsistent : (r : Host × AnswerResult) → IsConsistent r.0 → IsConsistent (report r)
report-IsConsistent (h, AnswerResult.accepted a) c = c
report-IsConsistent (h, AnswerResult.refused reason error) c = emit-IsConsistent _ h c

answer_or_deny-IsConsistent :
    (allowed : Bool) (denied : String) (input : AnswerQuestionInput) (h : Host)
    → IsConsistent h
    → IsConsistent (answer_or_deny allowed denied input h)
unfolding answer_or_deny
answer_or_deny-IsConsistent false denied input h c = emit-IsConsistent _ h c
answer_or_deny-IsConsistent true denied input h c =
    report-IsConsistent (apply_question_answer input h)
      (apply_question_answer-IsConsistent input h c)

pub handle_question_answer-IsConsistent :
    (id : String) (ids : Option (List String)) (text : Option String) (actor : ParticipantIdentity)
    (user : Option String) (role : Option AuthRole) (h : Host)
    → IsConsistent h
    → IsConsistent (handle_question_answer id ids text actor user role h)
unfolding handle_question_answer
handle_question_answer-IsConsistent id ids text actor user role h c =
    elim (Option-cases (load_question h.questions id)) [
      | inl e ↦ rw (e, handle_question_answer) (emit-IsConsistent _ h c)
      | inr (q, e) ↦
          rw (e, handle_question_answer)
            (if_rule IsConsistent (not (is_open q.status)) (emit-IsConsistent _ h c)
              (answer_or_deny-IsConsistent _ _ _ h c))
    ]
