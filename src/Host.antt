-- ===== src/Host.antt =====
-- packages/worker/src/orchestrator/host.ts and the methods of `Orchestrator` behind it
-- (packages/worker/src/orchestrator.ts): a session whose meta is loaded, with its tables, its
-- sockets and what it has sent.
mod Records
mod Messages
pub mod Frame
pub use Records.*
pub use Messages.*
use codevil.Base.{
  ℕ, ◌+◌, ◌≡◌, refl, Bool, true, false, ◌&&◌, String, List, [], ◌∷◌, Option, none, some, is_empty,
  length, keep, leb, ltb, ◌==◌, str_eq, if◌then◌else◌, is_some, get_or_else, ◌-◌,
}
use codevil.Text.{concat}
use codevil.Session.{SessionState, is_valid_transition, is_terminal_state, state_name}
use codevil.Room.{ParticipantIdentity, AgentRun, AgentRunState, RoomState, SandboxState}
use codevil.Connection.{SandboxSocket, live_sandbox_sockets}
use codevil.Lifecycle.{
  IdlePauseInput, should_pause_sandbox, idle_pause_deadline, lease_renew_deadline,
}
use codevil.Alarm.{next_alarm_deadline}

-- The capabilities of the provider that the session's meta names.
pub record Capabilities : Type 0 where
  pub pause_resume : Bool
  pub lease_renewal : Bool
  pub workspace_cache : Bool

-- `saved` is the row of `session_meta`. `now` is the clock, which stands still while a handler
-- runs. `events` and `sent` are the events given to the log and the messages sent to every live
-- sandbox socket, newest first. `directory` is the pending patch of the directory's row.
-- `pausing` and `resuming` say that a call to the provider is in flight.
-- `workspace_cache_job` is the row of that job, if there is one, and when it is due, if it waits.
pub record Host : Type 0 where
  pub meta : SessionMeta
  pub saved : SessionMeta
  pub now : ℕ
  pub events : List Event
  pub sent : List SandboxMessage
  pub sockets : List SandboxSocket
  pub questions : List QuestionRow
  pub revisions : List PlanRevision
  pub annotations : List AnnotationRow
  pub replies : List AnnotationReply
  pub directory : DirectoryPatch
  pub alarm : Option ℕ
  pub pausing : Bool
  pub resuming : Bool
  pub resume_requested : Bool
  pub capabilities : Capabilities
  pub presentation_retry_at : Option ℕ
  pub workspace_cache_job : Option (Option ℕ)

-- `host.meta.field = …`: the meta in memory changes, its row does not.
abbrev pub with_meta : SessionMeta → Host → Host
with_meta m h = record h { meta = m }

unfoldable pub save_meta : Host → Host
save_meta h = record h { saved = h.meta }

-- `appendAndBroadcast`.
unfoldable pub emit : Event → Host → Host
emit e h = record h { events = e ∷ h.events }

abbrev pub fail_with : String → Host → Host
fail_with message = emit (Event.error message none)

-- `transition`, without the spans of the tracer.
unfoldable pub transition : SessionState → Host → Host × Bool
transition to h =
    if is_valid_transition h.meta.state to
    then (save_meta (with_meta (record h.meta { state = to }) h), true)
    else (fail_with message h, false)
  where
    message : String
    message = concat ("Invalid transition: " ∷ state_name h.meta.state ∷ " → " ∷ state_name to ∷ [])

unfoldable pub send_to_sandbox : SandboxMessage → Host → Host
send_to_sandbox message h =
    if is_empty (live_sandbox_sockets h.sockets)
    then fail_with "Sandbox is not connected." h
    else record h { sent = message ∷ h.sent }

unfoldable pub track_cost : CostInfo → Host → Host
track_cost cost h =
    let total = h.meta.cost_total_usd + cost.total_cost_usd in
    emit (Event.cost_updated total cost)
      (save_meta (with_meta (record h.meta { cost_total_usd = total }) h))

abbrev pub no_patch : DirectoryPatch
no_patch = record { room_state = none; sandbox_state = none; active_run_state = none }

-- `Object.assign`: a field of the patch that is there replaces the pending one.
abbrev pub assign_field {ℓ} : {A : Type ℓ} → Option A → Option A → Option A
assign_field pending none = pending
assign_field pending (some a) = some a

unfoldable pub assign_patch : DirectoryPatch → DirectoryPatch → DirectoryPatch
assign_patch pending patch = record {
  room_state = assign_field pending.room_state patch.room_state;
  sandbox_state = assign_field pending.sandbox_state patch.sandbox_state;
  active_run_state = assign_field pending.active_run_state patch.active_run_state;
}

unfoldable pub update_directory : DirectoryPatch → Host → Host
update_directory patch h = record h { directory = assign_patch h.directory patch }

unfoldable pub revoke_preview : Host → Host
revoke_preview h = save_meta (
    with_meta
      (record h.meta {
        preview_active = false;
        preview_token_hash = none;
        preview_url = none;
        preview_port = none;
      })
      h)

unfoldable pub request_sandbox_resume : Host → Host
request_sandbox_resume h = record h { resume_requested = true }
