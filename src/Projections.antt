-- ===== src/Projections.antt =====
-- The state that clients show, folded from the events of a session
-- (packages/shared/src/projections.ts, packages/shared/src/projection-reducers.ts).
mod Records
pub mod Reducers
pub mod Clients
pub mod Replay
pub mod Unique
pub use Records.*
use codevil.Base.{
  ℕ, Bool, true, false, not, ◌&&◌, ◌||◌, String, List, [], ◌∷◌, Option, none, some, is_some,
  get_or_else, is_empty, ◌==◌, str_eq, if◌then◌else◌,
}
use codevil.Text.{truthy}
use codevil.Session.{SessionState}
use codevil.Room.{ParticipantIdentity}
use codevil.Host.{Event, AnnotationThread}
use codevil.Snapshots.{History}
use codevil.Projections.Reducers.{
  empty_preview_state, infer_phase, infer_plan_approved, reduce_preview_state, reduce_plan_revision,
  reduce_participants, reduce_annotations, reduce_questions,
}

unfoldable pub empty_session_snapshot : SessionSnapshot
empty_session_snapshot = record {
  cursor = 0;
  session_phase = none;
  plan_approved = false;
  history = record { messages = []; activity_log = [] };
  participants = [];
  preview = empty_preview_state;
  plan_revision = none;
  annotations = [];
  questions = [];
  selected_annotation_id = none;
}

abbrev pub is_other_revision : Option PlanRevisionState → String → ℕ → Bool
is_other_revision none run_id round = true
is_other_revision (some r) run_id round = not (str_eq r.run_id run_id) || not (r.round == round)

-- A revision with a text, of a run or a round that is not the one shown.
unfoldable pub is_new_revision : Option PlanRevisionState → Event → Bool
is_new_revision current (Event.plan_revision_frozen run_id round markdown locked created_at) =
    is_some (truthy markdown) && is_other_revision current run_id round
is_new_revision current _ = false

-- `nextPhase ?? snap.sessionPhase`.
unfoldable pub next_phase : Event → Option SessionState → Option SessionState
next_phase event current = elim (infer_phase event current) [ none ↦ current | some p ↦ some p ]

-- `record_history` is `applyToChatActivity`, the messages and the activity that an event adds.
unfoldable pub apply_to_session_snapshot :
    (Event → ℕ → History → History) → SessionSnapshot → ℕ → Event → ℕ → SessionSnapshot
apply_to_session_snapshot record_history snap cursor event now =
    let fresh = is_new_revision snap.plan_revision event in
    record {
      cursor = cursor;
      session_phase = next_phase event snap.session_phase;
      plan_approved = infer_plan_approved event snap.plan_approved;
      history = record_history event now snap.history;
      participants = reduce_participants snap.participants event;
      preview = reduce_preview_state snap.preview event;
      plan_revision = reduce_plan_revision snap.plan_revision event;
      annotations = reduce_annotations (if fresh then [] else snap.annotations) event;
      questions = reduce_questions snap.questions event;
      selected_annotation_id = if fresh then none else snap.selected_annotation_id;
    }
