-- ===== src/Host/Messages.antt =====
-- The events that a session logs for its clients, and the messages that it sends to its sandbox,
-- with the fields that the orchestrator fills. An app that can be previewed stands as its key.
use codevil.Base.{ℕ, Bool, String, List, Option}
use codevil.Room.{ParticipantIdentity}
use codevil.Host.Records.{CostInfo, QuestionOption, AnswerableBy, AnnotationReply, AnnotationThread}

pub data Phase : Type 0 where
  planning executing : Phase

pub data Event : Type 0 where
  session_created : (session_id : String) → Event
  status : (message : String) (actor : Option String) → Event
  error : (message : String) (actor : Option String) → Event
  phase : (phase : Phase) (model : String) → Event
  human_message :
      (id : String) (actor : ParticipantIdentity) (text : String) (created_at : ℕ) → Event
  agent_request :
      (run_id : String) (actor : ParticipantIdentity) (text : String) (created_at : ℕ) → Event
  agent_request_queued : (run_id : String) (position : ℕ) → Event
  agent_run_started : (run_id : String) (actor : ParticipantIdentity) (text : String) → Event
  agent_run_completed : (run_id : String) (pr_url : Option String) → Event
  agent_run_failed : (run_id : String) (message : String) → Event
  agent_response : (run_id : String) (text : String) (cost : CostInfo) → Event
  cost_updated : (cost_total_usd : ℕ) (turn_cost : CostInfo) → Event
  approval_requested :
      (run_id : String) (plan : String) (cost : CostInfo) (refinement_round : ℕ) → Event
  plan_execution_started : (run_id : String) (actor : String) → Event
  plan_revision_frozen :
      (run_id : String) (round : ℕ) (markdown : Option String) (locked : Bool) (created_at : ℕ)
      → Event
  annotation_created : (annotation : AnnotationThread) → Event
  annotation_replied : (thread_id : String) (reply : AnnotationReply) → Event
  annotation_withdrawn :
      (thread_id : String) (withdrawn_by : ParticipantIdentity) (withdrawn_at : ℕ) → Event
  annotations_consumed : (run_id : String) (round : ℕ) (thread_ids : List String) → Event
  consolidation_started : (run_id : String) (round : ℕ) → Event
  brief_dispatched : (run_id : String) (from_round : ℕ) (to_round : ℕ) (brief : String) → Event
  question_raised :
      (request_id : String) (run_id : String) (question : String) (options : List QuestionOption)
      (answerable_by : AnswerableBy) (raised_at : ℕ)
      → Event
  question_assigned :
      (request_id : String) (assigned_to : ParticipantIdentity) (assigned_by : ParticipantIdentity)
      (assigned_at : ℕ)
      → Event
  question_answered :
      (request_id : String) (option_ids : List String) (freeform : Option String)
      (answered_by : ParticipantIdentity) (answered_at : ℕ)
      → Event
  verification_failed : (attempts : ℕ) (last_error : String) → Event
  room_ready : (repo : String) → Event
  clone_progress : (line : String) → Event
  agent_event : (event : String) → Event
  preview_starting : (command : String) (port : ℕ) → Event
  preview_ready : (url : String) (command : String) (port : ℕ) → Event
  preview_error : (message : String) → Event
  preview_stopped : Event
  preview_apps : (apps : List String) → Event
  plan_ready : (plan : String) (cost : CostInfo) (refinement_round : ℕ) → Event
  complete : (pr_url : String) → Event
  participant_joined participant_left : (participant : ParticipantIdentity) → Event

pub record ConsolidationReply : Type 0 where
  pub author_name : String
  pub body : String

pub record ConsolidationAnnotation : Type 0 where
  pub id : String
  pub anchored_quote : String
  pub source_line : ℕ
  pub author_name : String
  pub comment : String
  pub replies : List ConsolidationReply

pub data SandboxMessage : Type 0 where
  plan : (run_id : String) (prompt : String) (model : String) (provider : String) → SandboxMessage
  agent_turn :
      (run_id : String) (prompt : String) (model : String) (provider : String) → SandboxMessage
  execute : (plan : String) (model : String) (provider : String) → SandboxMessage
  refine_plan : (feedback : String) → SandboxMessage
  consolidate_annotations :
      (run_id : String) (round : ℕ) (plan_revision_id : String) (plan : String)
      (annotations : List ConsolidationAnnotation) (model : String) (provider : String)
      → SandboxMessage
  create_pr :
      (branch_prompt : String) (branch_time : ℕ) (commit_message : String) (pr_title : String)
      (pr_body : String)
      → SandboxMessage
  ask_question_response :
      (request_id : String) (option_ids : List String) (freeform : Option String)
      (answered_by : ParticipantIdentity)
      → SandboxMessage
  ask_question_cancelled : (request_id : String) (reason : String) → SandboxMessage
  preview_start :
      (model : String) (provider : String) (task_prompt : String) (app_key : Option String)
      → SandboxMessage
  preview_stop : SandboxMessage
