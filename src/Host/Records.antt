-- ===== src/Host/Records.antt =====
-- What a session keeps: its meta (packages/shared/src/session-meta-schema.ts), the rows of its
-- tables (created in packages/worker/src/orchestrator.ts) and the records that these hold.
use codevil.Base.{ℕ, Bool, String, List, Option}
use codevil.Session.{SessionState}
use codevil.Room.{ParticipantIdentity, AgentRun, AgentRunState, RoomState, SandboxState}

-- Costs are counted in units of which a dollar is some whole number.
pub record CostInfo : Type 0 where
  pub input_tokens : ℕ
  pub output_tokens : ℕ
  pub total_cost_usd : ℕ

pub data DecisionAction : Type 0 where
  approve refine : DecisionAction

pub record LastDecision : Type 0 where
  pub actor : String
  pub action : DecisionAction
  pub refinement_round : ℕ

pub data PreviewActionType : Type 0 where
  start stop : PreviewActionType

pub record PendingPreviewAction : Type 0 where
  pub action_type : PreviewActionType
  pub app_key : Option String

-- An ISO time stands as its milliseconds. `max_time_ms` and `max_idle_ms` are what
-- `parseMaxTimeMs` reads in the duration; `sandbox_ref` is the identity at the provider.
pub record SessionMeta : Type 0 where
  pub session_id : String
  pub prompt : String
  pub repo : String
  pub worker_url : String
  pub provider : String
  pub plan_model : String
  pub exec_model : String
  pub max_time : String
  pub max_time_ms : Option ℕ
  pub state : SessionState
  pub refinement_round : ℕ
  pub verification_attempts : ℕ
  pub cost_total_usd : ℕ
  pub latest_plan : Option String
  pub active_run : Option AgentRun
  pub queued_runs : List AgentRun
  pub created_by : Option ParticipantIdentity
  pub preview_token_hash : Option String
  pub preview_url : Option String
  pub preview_port : Option ℕ
  pub preview_active : Bool
  pub created_at : ℕ
  pub expected_close : Bool
  pub sandbox_disconnected_at : Option ℕ
  pub sandbox_ref : Option String
  pub max_idle_ms : Option ℕ
  pub last_activity_at : Option ℕ
  pub sandbox_paused_at : Option ℕ
  pub sandbox_lease_renewed_at : Option ℕ
  pub pending_preview_action : Option PendingPreviewAction
  pub last_decision : Option LastDecision

pub data AnswerableBy : Type 0 where
  decider anyone assigned : AnswerableBy

pub data QuestionStatus : Type 0 where
  open_question answered cancelled : QuestionStatus

pub record QuestionOption : Type 0 where
  pub id : String
  pub label : String

pub record StoredAnswer : Type 0 where
  pub option_ids : List String
  pub freeform : Option String

-- A row of `questions`, its JSON columns as they are read back.
pub record QuestionRow : Type 0 where
  pub request_id : String
  pub run_id : String
  pub round : ℕ
  pub question : String
  pub context : Option String
  pub options : List QuestionOption
  pub answerable_by : AnswerableBy
  pub allow_freeform : Bool
  pub allow_multiple : Bool
  pub status : QuestionStatus
  pub answer : Option StoredAnswer
  pub answered_by : Option ParticipantIdentity
  pub answered_at : Option ℕ
  pub assigned_to : Option ParticipantIdentity
  pub cancelled_reason : Option String
  pub created_at : ℕ

pub record PlanRevision : Type 0 where
  pub run_id : String
  pub round : ℕ
  pub markdown : String
  pub locked_at : Option ℕ
  pub frozen_at : ℕ

-- The part of an anchor that the orchestrator reads, and the rest as its text.
pub record AnnotationAnchor : Type 0 where
  pub text : String
  pub source_line : ℕ
  pub position : String

pub data AnnotationStatus : Type 0 where
  open_annotation withdrawn consumed : AnnotationStatus

-- A row of `annotations`; `anchor` is what `parseAnnotationAnchorJson` reads in its column.
pub record AnnotationRow : Type 0 where
  pub id : String
  pub revision_run_id : String
  pub revision_round : ℕ
  pub anchor : Option AnnotationAnchor
  pub author : ParticipantIdentity
  pub comment : String
  pub status : AnnotationStatus
  pub created_at : ℕ

pub record AnnotationReply : Type 0 where
  pub id : String
  pub annotation_id : String
  pub author : ParticipantIdentity
  pub comment : String
  pub created_at : ℕ

pub record AnnotationThread : Type 0 where
  pub id : String
  pub run_id : String
  pub round : ℕ
  pub anchor : AnnotationAnchor
  pub author : ParticipantIdentity
  pub comment : String
  pub status : AnnotationStatus
  pub created_at : ℕ
  pub replies : List AnnotationReply

-- A field that is `none` is absent; `some none` writes NULL.
pub record DirectoryPatch : Type 0 where
  pub room_state : Option RoomState
  pub sandbox_state : Option SandboxState
  pub active_run_state : Option (Option AgentRunState)
