-- ===== src/SandboxHandlers/Plans.antt =====
-- Plans of the agent, their consolidated briefs, and its questions.
use codevil.Base.{
  ℕ, Bool, not, ◌&&◌, ◌||◌, String, List, [], ◌∷◌, ◌++◌, Option, none, some, keep, str_eq, ◌==◌,
  if◌then◌else◌, get_or_else,
}
use codevil.Session.{planning, refining, awaiting_approval, is_state}
use codevil.Room.{ParticipantIdentity, AgentRunState}
use codevil.Host.{
  Host, Event, CostInfo, QuestionOption, QuestionRow, AnswerableBy, open_question, with_meta,
  save_meta, emit, fail_with, transition, track_cost,
}
use codevil.Coordinator.{set_active_run_state}
use codevil.PlanRevisions.{freeze_plan_revision}
use codevil.CliHandlers.{dispatch_prose_brief, active_run_id, only_if}

unfoldable pub freeze_if_plan_first : String → Host → Host
freeze_if_plan_first plan h = elim h.meta.active_run [
  | none ↦ h
  | some run ↦
      if run.plan_first then freeze_plan_revision run.id h.meta.refinement_round plan h else h
]

unfoldable pub ask_for_approval : String → CostInfo → Host → Host
ask_for_approval plan cost h0 =
    let h = set_active_run_state AgentRunState.awaiting_approval h0 in
    emit (Event.status "Waiting for user approval." none) (
      emit
        (Event.approval_requested (get_or_else (active_run_id h) "run_unknown") plan cost
          h.meta.refinement_round)
        h)

unfoldable pub handle_sandbox_plan_ready : String → CostInfo → Host → Host
handle_sandbox_plan_ready plan cost h0 =
    let h =
      track_cost cost (save_meta (with_meta (record h0.meta { latest_plan = some plan }) h0)) in
    if not (is_state h.meta.state planning) && not (is_state h.meta.state refining)
    then h
    else only_if (transition awaiting_approval (freeze_if_plan_first plan h))
        (ask_for_approval plan cost)

-- `act`, if the session refines that round of that run.
unfoldable pub on_refining : String → ℕ → (Host → Host) → Host → Host
on_refining run_id round act h = elim h.meta.active_run [
  | none ↦ h
  | some run ↦
      if not (is_state h.meta.state refining)
      then h
      else if not (str_eq run.id run_id) || not (h.meta.refinement_round == round)
      then h
      else act h
]

unfoldable pub handle_consolidation_complete : String → ℕ → String → CostInfo → Host → Host
handle_consolidation_complete run_id round brief cost =
    on_refining run_id round λ h. dispatch_prose_brief brief (track_cost cost h)

unfoldable pub handle_consolidation_failed : String → ℕ → String → Host → Host
handle_consolidation_failed run_id round message = on_refining run_id round λ h.
    only_if (transition awaiting_approval h)
      λ g. fail_with message (set_active_run_state AgentRunState.awaiting_approval g)

pub record QuestionRequest : Type 0 where
  pub request_id : String
  pub run_id : String
  pub question : String
  pub context : Option String
  pub options : Option (List QuestionOption)
  pub answerable_by : AnswerableBy
  pub allow_freeform : Bool
  pub allow_multiple : Bool
  pub assigned_to : Option ParticipantIdentity

unfoldable pub question_row : QuestionRequest → ℕ → ℕ → QuestionRow
question_row msg round now = record {
  request_id = msg.request_id;
  run_id = msg.run_id;
  round = round;
  question = msg.question;
  context = msg.context;
  options = get_or_else msg.options [];
  answerable_by = msg.answerable_by;
  allow_freeform = msg.allow_freeform;
  allow_multiple = msg.allow_multiple;
  status = open_question;
  answer = none;
  answered_by = none;
  answered_at = none;
  assigned_to = msg.assigned_to;
  cancelled_reason = none;
  created_at = now;
}

-- `INSERT OR REPLACE` by `request_id`.
unfoldable pub handle_ask_question_request : QuestionRequest → Host → Host
handle_ask_question_request msg h =
    emit
      (Event.question_raised msg.request_id msg.run_id msg.question (get_or_else msg.options [])
        msg.answerable_by h.now)
      (record h {
        questions =
            keep (λ q. not (str_eq q.request_id msg.request_id)) h.questions
            ++ question_row msg h.meta.refinement_round h.now ∷ [];
      })
