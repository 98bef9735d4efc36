-- ===== src/QuestionAnswer.antt =====
-- packages/worker/src/orchestrator/question-answer.ts: the answer to a question of the agent.
pub mod Choice
pub mod Once
use codevil.Base.{
  ℕ, ◌≡◌, Bool, true, false, not, ◌&&◌, ◌||◌, String, List, [], ◌∷◌, ◌++◌, Option, none, some, map,
  find, is_some, is_empty, length, ltb, str_eq, ◌==◌, if◌then◌else◌, get_elem?, any, get_or_else,
}
use mathlib.Core.Option
use codevil.Text.{trim, truthy}
use codevil.Room.{ParticipantIdentity}
use codevil.Connection.{live_sandbox_sockets}
use codevil.Host.{
  Host, Event, SandboxMessage, QuestionRow, QuestionOption, StoredAnswer, QuestionStatus, answered,
  open_question, emit, send_to_sandbox,
}
use codevil.Activity.{record_activity}
use codevil.QuestionsStore.{load_question, is_open, is_answered}

-- An index that is no natural number is `none`.
pub record AnswerQuestionInput : Type 0 where
  pub request_id : String
  pub actor : ParticipantIdentity
  pub option_indexes : Option (List (Option ℕ))
  pub option_ids : Option (List String)
  pub freeform : Option String

pub data Refusal : Type 0 where
  not_found not_open invalid_selection sandbox_unavailable freeform_not_allowed : Refusal

pub record AcceptedAnswer : Type 0 where
  pub already : Bool
  pub question : String
  pub selected_labels : List String
  pub answered_by : ParticipantIdentity

pub data AnswerResult : Type 0 where
  accepted : AcceptedAnswer → AnswerResult
  refused : Refusal → String → AnswerResult

pub record Selection : Type 0 where
  pub option_ids : List String
  pub freeform : Option String

pub data SelectionResult : Type 0 where
  selected : Selection → SelectionResult
  invalid : String → SelectionResult

abbrev pub includes : List String → String → Bool
includes ids id = any (λ x. str_eq x id) ids

-- `[...new Set(ids)]`: each text once, where it stands first.
unfoldable pub unique_from : List String → List String → List String
unique_from seen [] = []
unique_from seen (id ∷ ids) = elim (includes seen id) [
  | true ↦ unique_from seen ids
  | false ↦ id ∷ unique_from (id ∷ seen) ids
]

unfoldable pub unique : List String → List String
unique = unique_from []

abbrev pub option_ids_of : List QuestionOption → List String
option_ids_of = map λ option. option.id

-- The identifiers at the indexes; `none` if one is out of range.
unfoldable pub ids_at : List QuestionOption → List (Option ℕ) → Option (List String)
ids_at options [] = some []
ids_at options (none ∷ indexes) = none
ids_at options (some i ∷ indexes) =
    let rest = ids_at options indexes in
    elim (get_elem? options i) [
      | none ↦ none
      | some option ↦ Option.map (λ ids. option.id ∷ ids) rest
    ]

unfoldable pub check_selection : QuestionRow → List String → Option String → SelectionResult
check_selection question option_ids freeform =
    if any (λ id. not (includes (option_ids_of question.options) id)) option_ids
    then invalid "Invalid question option"
    else if not question.allow_multiple && ltb 1 (length option_ids)
    then invalid "Question accepts one option"
    else if is_some freeform && not question.allow_freeform
    then invalid "Question does not accept free-form input"
    else if length option_ids == 0 && not (is_some freeform)
    then invalid "Answer must select an option or include text"
    else selected (record { option_ids = option_ids; freeform = freeform })

abbrev pub requested_ids : QuestionRow → AnswerQuestionInput → Option (List String)
requested_ids question input = elim input.option_indexes [
  | some indexes ↦ ids_at question.options indexes
  | none ↦ some (get_or_else input.option_ids [])
]

unfoldable pub validate_selection : QuestionRow → AnswerQuestionInput → SelectionResult
validate_selection question input = elim (requested_ids question input) [
  | none ↦ invalid "Invalid question option"
  | some ids ↦ check_selection question (unique ids) (truthy (Option.map trim input.freeform))
]

unfoldable pub label_of : List QuestionOption → String → String
label_of options id = elim (find (λ option. str_eq option.id id) options) [
  | none ↦ id
  | some option ↦ option.label
]

unfoldable pub labels_for_answer : QuestionRow → List String → Option String → List String
labels_for_answer question option_ids freeform = elim option_ids [
  | [] ↦ elim (truthy freeform) [ none ↦ [] | some text ↦ text ∷ [] ]
  | id ∷ ids ↦ map (label_of question.options) (id ∷ ids)
]

unfoldable pub existing_answer : QuestionRow → AnswerResult
existing_answer question = elim question.answer [
  | none ↦ refused not_open "Question has no readable accepted answer"
  | some answer ↦ elim question.answered_by [
    | none ↦ refused not_open "Question has no readable accepted answer"
    | some actor ↦ accepted (record {
      already = true;
      question = question.question;
      selected_labels = labels_for_answer question answer.option_ids answer.freeform;
      answered_by = actor;
    })
  ]
]

-- The two columns are read back as a participant if neither is empty.
unfoldable pub readable_participant : ParticipantIdentity → Option ParticipantIdentity
readable_participant p = if str_eq p.id "" || str_eq p.name "" then none else some p

-- `UPDATE questions … WHERE request_id = ? AND status = 'open'`.
unfoldable pub answer_row : AnswerQuestionInput → Selection → ℕ → QuestionRow → QuestionRow
answer_row input selection now q =
    if str_eq q.request_id input.request_id && is_open q.status
    then record q {
      status = answered;
      answer = some (record { option_ids = selection.option_ids; freeform = selection.freeform });
      answered_by = readable_participant input.actor;
      answered_at = some now;
    }
    else q

unfoldable pub accept_answer : QuestionRow → AnswerQuestionInput → Selection → Host → Host
accept_answer question input s h = record_activity (
    send_to_sandbox
      (SandboxMessage.ask_question_response input.request_id s.option_ids s.freeform input.actor)
      (emit (Event.question_answered input.request_id s.option_ids s.freeform input.actor h.now)
        (record h { questions = map (answer_row input s h.now) h.questions })))

unfoldable pub accepted_answer : QuestionRow → AnswerQuestionInput → Selection → AnswerResult
accepted_answer question input s = accepted (record {
  already = false;
  question = question.question;
  selected_labels = labels_for_answer question s.option_ids s.freeform;
  answered_by = input.actor;
})

unfoldable pub settle_selection :
    QuestionRow → AnswerQuestionInput → SelectionResult → Host → Host × AnswerResult
settle_selection question input (invalid error) h = (h, refused invalid_selection error)
settle_selection question input (selected s) h =
    (accept_answer question input s h, accepted_answer question input s)

unfoldable pub answer_open : QuestionRow → AnswerQuestionInput → Host → Host × AnswerResult
answer_open question input h =
    if is_empty (live_sandbox_sockets h.sockets)
    then (h, refused sandbox_unavailable "Sandbox is reconnecting. Please try again in a moment.")
    else settle_selection question input (validate_selection question input) h

unfoldable pub apply_question_answer : AnswerQuestionInput → Host → Host × AnswerResult
apply_question_answer input h = elim (load_question h.questions input.request_id) [
  | none ↦ (h, refused not_found "Question not found")
  | some question ↦
      if is_answered question.status
      then (h, existing_answer question)
      else if not (is_open question.status)
      then (h, refused not_open "Question is no longer open")
      else answer_open question input h
]

pub record FreeformQuestion : Type 0 where
  pub question : String
  pub context : Option String

pub data FreeformResult : Type 0 where
  offered : FreeformQuestion → FreeformResult
  withheld : Refusal → String → FreeformResult

unfoldable pub freeform_question_for_integration : Host → String → FreeformResult
freeform_question_for_integration h request_id = elim (load_question h.questions request_id) [
  | none ↦ withheld not_found "Question not found"
  | some q ↦
      if not (is_open q.status)
      then withheld not_open "Question is no longer open"
      else if not q.allow_freeform
      then withheld freeform_not_allowed "Question does not accept free-form input"
      else offered (record { question = q.question; context = q.context })
]
