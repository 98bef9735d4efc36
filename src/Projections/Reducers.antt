-- ===== src/Projections/Reducers.antt =====
-- packages/shared/src/projection-reducers.ts: how one event changes each part of a snapshot.
use codevil.Base.{
  ℕ, Bool, true, false, not, String, List, [], ◌∷◌, ◌++◌, Option, none, some, is_some, any, map,
  keep, str_eq, if◌then◌else◌,
}
use codevil.Text.{truthy, trim, strip_prefix}
use codevil.Session.{
  SessionState, initializing, ready, planning, awaiting_approval, refining, executing, verifying,
  completed, failed, is_state,
}
use codevil.Room.{ParticipantIdentity}
use codevil.Snapshots.{take_last}
use codevil.Host.{
  Event, Phase, AnnotationThread, AnnotationReply, AnswerableBy, withdrawn, consumed,
}
use codevil.Projections.Records.{
  PreviewState, PreviewStatus, PlanRevisionState, QuestionAnswer, QuestionViewModel, open_view,
  answered_view,
}

abbrev pub preview_output_prefix : String
preview_output_prefix = "Preview output: "

abbrev pub preview_output_limit : ℕ
preview_output_limit = 20

abbrev pub plan_approved_message : String
plan_approved_message = "Plan approved. Starting execution."

unfoldable pub empty_preview_state : PreviewState
empty_preview_state = record {
  status = PreviewStatus.idle;
  url = none;
  command = none;
  port = none;
  error = none;
  apps = [];
  selected_app_key = none;
  reload_revision = 0;
  output_lines = [];
}

-- A status message of an older session's replay.
unfoldable pub infer_status_phase : String → Option SessionState → Option SessionState
infer_status_phase message current =
    if str_eq message plan_approved_message
    then some executing
    else if is_some (strip_prefix "Verification failed" message)
    then elim current [
      | none ↦ some verifying
      | some state ↦ if is_state state failed then some failed else some verifying
    ]
    else none

unfoldable pub infer_phase : Event → Option SessionState → Option SessionState
infer_phase (Event.session_created _) current = some initializing
infer_phase (Event.phase Phase.planning _) current = some planning
infer_phase (Event.phase Phase.executing _) current = some executing
infer_phase (Event.plan_ready _ _ _) current = some awaiting_approval
infer_phase (Event.approval_requested _ _ _ _) current = some awaiting_approval
infer_phase (Event.brief_dispatched _ _ _ _) current = some refining
infer_phase (Event.agent_run_started _ _ _) current = some executing
infer_phase (Event.plan_execution_started _ _) current = some executing
infer_phase (Event.agent_run_completed _ _) current = some ready
infer_phase (Event.agent_run_failed _ _) current = some ready
infer_phase (Event.complete _) current = some completed
infer_phase (Event.verification_failed _ _) current = some failed
infer_phase (Event.error _ _) current = some failed
infer_phase (Event.status message _) current = infer_status_phase message current
infer_phase _ current = none

unfoldable pub infer_plan_approved : Event → Bool → Bool
infer_plan_approved (Event.phase Phase.executing _) current = true
infer_plan_approved (Event.plan_execution_started _ _) current = true
infer_plan_approved (Event.status message _) current =
    if str_eq message plan_approved_message then true else current
infer_plan_approved (Event.agent_run_started _ _ _) current = false
infer_plan_approved (Event.approval_requested _ _ _ _) current = false
infer_plan_approved _ current = current

-- A line of a preview's output, if a status message is one.
unfoldable pub output_line : String → Option String
output_line message = elim (strip_prefix preview_output_prefix message) [
  | none ↦ none
  | some rest ↦ truthy (some (trim rest))
]

abbrev pub first_key : List String → Option String
first_key [] = none
first_key (key ∷ keys) = some key

unfoldable pub select_app : Option String → List String → Option String
select_app selected apps = elim (truthy selected) [
  | none ↦ first_key apps
  | some key ↦ if any (λ k. str_eq k key) apps then some key else first_key apps
]

unfoldable pub reduce_preview_state : PreviewState → Event → PreviewState
reduce_preview_state current (Event.preview_starting command port) = record current {
  status = PreviewStatus.starting;
  url = none;
  command = some command;
  port = some port;
  error = none;
  output_lines = [];
}
reduce_preview_state current (Event.preview_ready url command port) = record current {
  status = PreviewStatus.ready;
  url = some url;
  command = some command;
  port = some port;
  error = none;
}
reduce_preview_state current (Event.preview_error message) = record current {
  status = PreviewStatus.error;
  url = none;
  error = some message;
}
reduce_preview_state current (Event.status message _) = elim (output_line message) [
  | none ↦ current
  | some line ↦ record current {
    output_lines = take_last preview_output_limit (current.output_lines ++ line ∷ []);
  }
]
reduce_preview_state current Event.preview_stopped = record empty_preview_state {
  apps = current.apps;
  selected_app_key = current.selected_app_key;
}
reduce_preview_state current (Event.preview_apps apps) = record current {
  apps = apps;
  selected_app_key = select_app current.selected_app_key apps;
}
reduce_preview_state current _ = current

-- A revision with a text replaces the one shown; without one it only locks it.
unfoldable pub reduce_plan_revision : Option PlanRevisionState → Event → Option PlanRevisionState
reduce_plan_revision current (Event.plan_revision_frozen run_id round markdown locked created_at) =
    elim (truthy markdown) [
      | some text ↦ some (record {
        run_id = run_id;
        round = round;
        markdown = text;
        locked = locked;
        created_at = some created_at;
      })
      | none ↦ elim current [ none ↦ none | some r ↦ some (record r { locked = locked }) ]
    ]
reduce_plan_revision current _ = current

-- The first element with a property is changed, `findIndex` with a `map` at that index.
abbrev pub update_first {ℓ} : {A : Type ℓ} → (A → Bool) → (A → A) → List A → List A
update_first p f [] = []
update_first p f (x ∷ xs) = let rest = update_first p f xs in if p x then f x ∷ xs else x ∷ rest

abbrev pub has_id : String → ParticipantIdentity → Bool
has_id id participant = str_eq participant.id id

unfoldable pub upsert_participant :
    List ParticipantIdentity → ParticipantIdentity → List ParticipantIdentity
upsert_participant current participant =
    if any (has_id participant.id) current
    then update_first (has_id participant.id) (λ _. participant) current
    else current ++ participant ∷ []

unfoldable pub reduce_participants : List ParticipantIdentity → Event → List ParticipantIdentity
reduce_participants current (Event.participant_joined participant) =
    upsert_participant current participant
reduce_participants current (Event.participant_left participant) =
    keep (λ p. not (has_id participant.id p)) current
reduce_participants current _ = current

abbrev pub is_thread : String → AnnotationThread → Bool
is_thread id t = str_eq t.id id

abbrev pub is_reply : String → AnnotationReply → Bool
is_reply id r = str_eq r.id id

unfoldable pub add_reply : AnnotationReply → AnnotationThread → AnnotationThread
add_reply reply t =
    if any (is_reply reply.id) t.replies then t else record t { replies = t.replies ++ reply ∷ [] }

abbrev pub consume : List String → AnnotationThread → AnnotationThread
consume ids t = if any (λ id. str_eq id t.id) ids then record t { status = consumed } else t

unfoldable pub reduce_annotations : List AnnotationThread → Event → List AnnotationThread
reduce_annotations current (Event.annotation_created annotation) =
    if any (is_thread annotation.id) current then current else current ++ annotation ∷ []
reduce_annotations current (Event.annotation_replied thread_id reply) =
    update_first (is_thread thread_id) (add_reply reply) current
reduce_annotations current (Event.annotation_withdrawn thread_id _ _) =
    update_first (is_thread thread_id) (λ t. record t { status = withdrawn }) current
reduce_annotations current (Event.annotations_consumed _ _ thread_ids) =
    map (consume thread_ids) current
reduce_annotations current _ = current

abbrev pub is_question : String → QuestionViewModel → Bool
is_question id q = str_eq q.request_id id

abbrev pub is_answered_view : QuestionViewModel → Bool
is_answered_view q = elim q.status [ open_view ↦ false | answered_view ↦ true ]

unfoldable pub answer_view : QuestionAnswer → QuestionViewModel → QuestionViewModel
answer_view answer q =
    if is_answered_view q then q else record q { status = answered_view; answer = some answer }

unfoldable pub reduce_questions : List QuestionViewModel → Event → List QuestionViewModel
reduce_questions current
      (Event.question_raised request_id run_id question options answerable_by raised_at) =
    if any (is_question request_id) current
    then current
    else current
      ++ record {
        request_id = request_id;
        run_id = run_id;
        question = question;
        options = options;
        answerable_by = answerable_by;
        assigned_to = none;
        status = open_view;
        raised_at = raised_at;
        answer = none;
      }
        ∷ []
reduce_questions current (Event.question_assigned request_id assigned_to _ _) =
    update_first (is_question request_id)
      (λ q. record q { answerable_by = AnswerableBy.assigned; assigned_to = some assigned_to })
      current
reduce_questions current (Event.question_answered request_id option_ids freeform answered_by _) =
    update_first (is_question request_id)
      (answer_view
        (record { option_ids = option_ids; freeform = freeform; answered_by = answered_by }))
      current
reduce_questions current _ = current
