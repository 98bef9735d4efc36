-- ===== src/CliHandlers/Asking.antt =====
-- Questions of the agent: assigned, answered by a client, and cancelled with their run.
use mathlib.Core.Option
use codevil.Base.{
  Bool, true, false, not, String, List, [], ◌∷◌, Option, none, some, map, is_empty, str_eq,
  if◌then◌else◌,
}
use codevil.Room.{ParticipantIdentity}
use codevil.Host.{
  Host, Event, SandboxMessage, QuestionRow, decider, assigned, cancelled, emit, fail_with,
  send_to_sandbox,
}
use codevil.QuestionsStore.{
  AuthRole, load_question, is_open, is_open_of, list_open_question_ids, can_answer_question,
  question_answer_denied_message,
}
use codevil.QuestionAnswer.{AnswerQuestionInput, AnswerResult, apply_question_answer}

unfoldable pub assign_row : String → ParticipantIdentity → QuestionRow → QuestionRow
assign_row request_id assignee q =
    if str_eq q.request_id request_id
    then record q { answerable_by = assigned; assigned_to = some assignee }
    else q

abbrev pub creator_id : Host → Option String
creator_id h = Option.map (λ p. p.id) h.meta.created_by

unfoldable pub handle_question_assign :
    String
    → ParticipantIdentity
    → ParticipantIdentity
    → Option String
    → Option AuthRole
    → Host
    → Host
handle_question_assign request_id assigned_to actor user_id role h =
    elim (load_question h.questions request_id) [
      | none ↦ fail_with "Question not found or already answered." h
      | some q ↦
          if not (is_open q.status)
          then fail_with "Question not found or already answered." h
          else if not (can_answer_question decider user_id (creator_id h) role none)
          then fail_with "Only the session creator can assign this question." h
          else emit (Event.question_assigned request_id assigned_to actor h.now)
              (record h { questions = map (assign_row request_id assigned_to) h.questions })
    ]

-- A refusal is told to the clients.
abbrev pub report : Host × AnswerResult → Host
report (h, AnswerResult.accepted a) = h
report (h, AnswerResult.refused reason error) = fail_with error h

-- What a web client gives: identifiers of options, not indexes.
abbrev pub web_answer :
    String → Option (List String) → Option String → ParticipantIdentity → AnswerQuestionInput
web_answer request_id option_ids freeform actor = record {
  request_id = request_id;
  actor = actor;
  option_indexes = none;
  option_ids = option_ids;
  freeform = freeform;
}

unfoldable pub answer_or_deny : Bool → String → AnswerQuestionInput → Host → Host
answer_or_deny false denied input h = fail_with denied h
answer_or_deny true denied input h = report (apply_question_answer input h)

unfoldable pub handle_question_answer :
    String
    → Option (List String)
    → Option String
    → ParticipantIdentity
    → Option String
    → Option AuthRole
    → Host
    → Host
handle_question_answer request_id option_ids freeform actor user_id role h =
    elim (load_question h.questions request_id) [
      | none ↦ fail_with "Question not found or already answered." h
      | some q ↦
          if not (is_open q.status)
          then fail_with "Question not found or already answered." h
          else answer_or_deny
              (can_answer_question q.answerable_by user_id (creator_id h) role
                (Option.map (λ p. p.id) q.assigned_to))
              (question_answer_denied_message q) (web_answer request_id option_ids freeform actor) h
    ]

unfoldable pub cancel_row : String → String → QuestionRow → QuestionRow
cancel_row run_id reason q =
    if is_open_of run_id q
    then record q { status = cancelled; cancelled_reason = some reason }
    else q

unfoldable pub send_cancellations : String → List String → Host → Host
send_cancellations reason [] h = h
send_cancellations reason (id ∷ ids) h =
    send_cancellations reason ids
      (send_to_sandbox (SandboxMessage.ask_question_cancelled id reason) h)

unfoldable pub cancel_open_questions : String → String → Host → Host
cancel_open_questions run_id reason h =
    if is_empty ids
    then h
    else send_cancellations reason ids
        (record h { questions = map (cancel_row run_id reason) h.questions })
  where
    ids : List String
    ids = list_open_question_ids h.questions run_id
