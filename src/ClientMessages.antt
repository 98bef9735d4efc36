-- ===== src/ClientMessages.antt =====
-- The messages of a client over its WebSocket: packages/worker/src/ws-authorization.ts, the policy
-- of packages/shared/src/auth.ts, and `webSocketMessage` of packages/worker/src/orchestrator.ts
-- once a message is parsed and the membership of its sender is looked up.
pub mod Access
use codevil.Base.{
  ℕ, Bool, true, false, String, List, Option, none, some, get_or_else, if◌then◌else◌,
}
use codevil.Room.{ParticipantIdentity}
use codevil.Host.{Host, AnnotationAnchor}
use codevil.QuestionsStore.{AuthRole, owner, admin, developer, viewer}
use codevil.CliHandlers.{
  handle_human_message, handle_agent_request, handle_annotation_create, handle_annotation_reply,
  handle_annotation_withdraw, handle_question_assign, handle_question_answer, handle_approve,
  handle_abort, handle_refine,
}
use codevil.Preview.{handle_preview_start, handle_preview_stop}
use codevil.Teardown.{handle_stop_session}

pub data AuthAction : Type 0 where
  members_invite members_invite_owner members_manage sessions_create : AuthAction
  sessions_read sessions_control runs_approve preview_start_action : AuthAction

-- The four sets of `POLICY`.
unfoldable pub can : AuthRole → AuthAction → Bool
can owner action = true
can admin members_invite_owner = false
can admin members_invite = true
can admin members_manage = true
can admin sessions_create = true
can admin sessions_read = true
can admin sessions_control = true
can admin runs_approve = true
can admin preview_start_action = true
can developer members_invite = false
can developer members_invite_owner = false
can developer members_manage = false
can developer sessions_create = true
can developer sessions_read = true
can developer sessions_control = true
can developer runs_approve = true
can developer preview_start_action = true
can viewer sessions_read = true
can viewer members_invite = false
can viewer members_invite_owner = false
can viewer members_manage = false
can viewer sessions_create = false
can viewer sessions_control = false
can viewer runs_approve = false
can viewer preview_start_action = false

pub data ClientMessage : Type 0 where
  human_message : (text : String) → ClientMessage
  agent_request : (text : String) (plan_first : Option Bool) → ClientMessage
  annotation_create :
      (run_id : String) (round : ℕ) (anchor : AnnotationAnchor) (comment : String) → ClientMessage
  annotation_reply : (thread_id : String) (comment : String) → ClientMessage
  annotation_withdraw : (thread_id : String) → ClientMessage
  question_assign : (request_id : String) (assigned_to : ParticipantIdentity) → ClientMessage
  question_answer :
      (request_id : String) (option_ids : Option (List String)) (freeform : Option String)
      → ClientMessage
  approve abort stop_session preview_stop : ClientMessage
  approve_run : (run_id : String) → ClientMessage
  abort_run : (run_id : String) → ClientMessage
  refine_plan : (feedback : String) → ClientMessage
  refine_run : (run_id : String) (feedback : String) → ClientMessage
  preview_start : (app_key : Option String) → ClientMessage

unfoldable pub auth_action_for_client_message : ClientMessage → AuthAction
auth_action_for_client_message approve = runs_approve
auth_action_for_client_message (approve_run run_id) = runs_approve
auth_action_for_client_message (preview_start app_key) = preview_start_action
auth_action_for_client_message (human_message text) = sessions_control
auth_action_for_client_message (agent_request text plan_first) = sessions_control
auth_action_for_client_message (annotation_create run_id round anchor comment) = sessions_control
auth_action_for_client_message (annotation_reply thread_id comment) = sessions_control
auth_action_for_client_message (annotation_withdraw thread_id) = sessions_control
auth_action_for_client_message abort = sessions_control
auth_action_for_client_message (abort_run run_id) = sessions_control
auth_action_for_client_message stop_session = sessions_control
auth_action_for_client_message (refine_plan feedback) = sessions_control
auth_action_for_client_message (refine_run run_id feedback) = sessions_control
auth_action_for_client_message preview_stop = sessions_control
auth_action_for_client_message (question_assign request_id assigned_to) = sessions_control
auth_action_for_client_message (question_answer request_id option_ids freeform) = sessions_control

pub data AuthorizationResult : Type 0 where
  allowed : (action : AuthAction) (role : AuthRole) → AuthorizationResult
  denied : (action : AuthAction) (status : ℕ) (message : String) → AuthorizationResult

-- The role of the active membership of a user, read from the database.
abbrev pub Memberships : Type 0
Memberships = String → Option AuthRole

unfoldable pub authorize_socket_message :
    Option String → ClientMessage → Memberships → AuthorizationResult
authorize_socket_message auth message load_membership =
    let action = auth_action_for_client_message message in
    elim auth [
      | none ↦ denied action 401 "Unauthorized"
      | some user_id ↦ elim (load_membership user_id) [
        | none ↦ denied action 403 "Membership required"
        | some role ↦ if can role action then allowed action role else denied action 403 "Forbidden"
      ]
    ]

-- Who sends: the participant, the user that the socket was authenticated as and its role now, and
-- the identifier that a handler generates.
pub record Sender : Type 0 where
  pub participant : ParticipantIdentity
  pub user_id : Option String
  pub role : Option AuthRole
  pub fresh_id : String

unfoldable pub dispatch_client_message : ClientMessage → Sender → Host → Host
dispatch_client_message (human_message text) s = handle_human_message text s.participant s.fresh_id
dispatch_client_message (agent_request text plan_first) s =
    handle_agent_request text s.participant (get_or_else plan_first false) none s.fresh_id
dispatch_client_message (annotation_create run_id round anchor comment) s =
    handle_annotation_create run_id round anchor comment s.participant s.fresh_id
dispatch_client_message (annotation_reply thread_id comment) s =
    handle_annotation_reply thread_id comment s.participant s.fresh_id
dispatch_client_message (annotation_withdraw thread_id) s =
    handle_annotation_withdraw thread_id s.participant
dispatch_client_message (question_assign request_id assigned_to) s =
    handle_question_assign request_id assigned_to s.participant s.user_id s.role
dispatch_client_message (question_answer request_id option_ids freeform) s =
    handle_question_answer request_id option_ids freeform s.participant s.user_id s.role
dispatch_client_message approve s = handle_approve s.participant.name none
dispatch_client_message (approve_run run_id) s = handle_approve s.participant.name (some run_id)
dispatch_client_message abort s = handle_abort s.participant.name none
dispatch_client_message (abort_run run_id) s = handle_abort s.participant.name (some run_id)
dispatch_client_message stop_session s = handle_stop_session
dispatch_client_message (refine_plan feedback) s = handle_refine feedback s.participant.name none
dispatch_client_message (refine_run run_id feedback) s =
    handle_refine feedback s.participant.name (some run_id)
dispatch_client_message (preview_start app_key) s = handle_preview_start app_key
dispatch_client_message preview_stop s = handle_preview_stop

abbrev pub act_if_allowed :
    AuthorizationResult → ClientMessage → ParticipantIdentity → Option String → String → Host → Host
act_if_allowed (denied action status message) msg participant auth fresh_id h = h
act_if_allowed (allowed action role) msg participant auth fresh_id h =
    dispatch_client_message msg
      (record { participant = participant; user_id = auth; role = some role; fresh_id = fresh_id })
      h

-- `webSocketMessage`; a refusal goes to the socket alone.
unfoldable pub web_socket_message :
    Memberships → ClientMessage → ParticipantIdentity → Option String → String → Host → Host
web_socket_message load_membership msg participant auth fresh_id h =
    act_if_allowed (authorize_socket_message auth msg load_membership) msg participant auth fresh_id
      h
