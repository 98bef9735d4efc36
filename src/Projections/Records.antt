-- ===== src/Projections/Records.antt =====
-- packages/shared/src/session-snapshot-schema.ts: what a snapshot of a session holds. Its messages
-- and its activity are the history that packages/worker/src/orchestrator/event-log-limits.ts bounds.
use codevil.Base.{ℕ, Bool, String, List, Option}
use codevil.Session.{SessionState}
use codevil.Room.{ParticipantIdentity}
use codevil.Host.{AnnotationThread, QuestionOption, AnswerableBy}
use codevil.Snapshots.{History}

pub data PreviewStatus : Type 0 where
  idle starting ready error : PreviewStatus

pub record PreviewState : Type 0 where
  pub status : PreviewStatus
  pub url : Option String
  pub command : Option String
  pub port : Option ℕ
  pub error : Option String
  pub apps : List String
  pub selected_app_key : Option String
  pub reload_revision : ℕ
  pub output_lines : List String

pub record PlanRevisionState : Type 0 where
  pub run_id : String
  pub round : ℕ
  pub markdown : String
  pub locked : Bool
  pub created_at : Option ℕ

pub record QuestionAnswer : Type 0 where
  pub option_ids : List String
  pub freeform : Option String
  pub answered_by : ParticipantIdentity

pub data QuestionViewStatus : Type 0 where
  open_view answered_view : QuestionViewStatus

pub record QuestionViewModel : Type 0 where
  pub request_id : String
  pub run_id : String
  pub question : String
  pub options : List QuestionOption
  pub answerable_by : AnswerableBy
  pub assigned_to : Option ParticipantIdentity
  pub status : QuestionViewStatus
  pub raised_at : ℕ
  pub answer : Option QuestionAnswer

pub record SessionSnapshot : Type 0 where
  pub cursor : ℕ
  pub session_phase : Option SessionState
  pub plan_approved : Bool
  pub history : History
  pub participants : List ParticipantIdentity
  pub preview : PreviewState
  pub plan_revision : Option PlanRevisionState
  pub annotations : List AnnotationThread
  pub questions : List QuestionViewModel
  pub selected_annotation_id : Option String
