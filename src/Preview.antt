-- ===== src/Preview.antt =====
-- The preview commands of packages/worker/src/orchestrator/sandbox-session-lifecycle.ts: a command
-- that the sandbox cannot take now is remembered and replayed when its agent is back.
pub mod Replay
use codevil.Base.{
  ◌≡◌, Bool, true, false, not, ◌&&◌, ◌||◌, String, List, [], ◌∷◌, Option, none, some, is_some,
  if◌then◌else◌,
}
use codevil.Text.{concat}
use codevil.Session.{is_terminal_state}
use codevil.Host.{
  Host, SessionMeta, Event, SandboxMessage, PreviewActionType, start, stop, PendingPreviewAction,
  with_meta, save_meta, emit, send_to_sandbox, request_sandbox_resume,
}
use codevil.Activity.{sandbox_socket_attached, record_activity}

unfoldable pub build_preview_start_message : SessionMeta → Option String → SandboxMessage
build_preview_start_message meta app_key =
    SandboxMessage.preview_start meta.plan_model meta.provider meta.prompt app_key

pub data Unavailable : Type 0 where
  resuming reconnecting : Unavailable

unfoldable pub preview_unavailable_reason : Host → Option Unavailable
preview_unavailable_reason h =
    if is_terminal_state h.meta.state || not h.capabilities.pause_resume
    then none
    else if is_some h.meta.sandbox_paused_at || h.pausing
    then some resuming
    else if is_some h.meta.sandbox_disconnected_at && not (sandbox_socket_attached h)
    then some reconnecting
    else none

reason_text : Unavailable → String
reason_text resuming = "resuming"
reason_text reconnecting = "reconnecting"

action_text : PreviewActionType → String
action_text start = "start"
action_text stop = "stop"

abbrev pub key_of : PreviewActionType → Option String → Option String
key_of start app_key = app_key
key_of stop app_key = none

unfoldable pub set_pending : Option PendingPreviewAction → Host → Host
set_pending action h = save_meta (with_meta (record h.meta { pending_preview_action = action }) h)

deferred_message : PreviewActionType → Unavailable → String
deferred_message action reason = concat (
    "Sandbox is "
    ∷ reason_text reason
    ∷ "; the preview will "
    ∷ action_text action
    ∷ " when it reconnects."
    ∷ [])

unfoldable pub defer_preview_command : PreviewActionType → Option String → Host → Host × Bool
unfolding deferred_message reason_text action_text
defer_preview_command action app_key h = elim (preview_unavailable_reason h) [
  | none ↦ (if is_some h.meta.pending_preview_action then set_pending none h else h, false)
  | some reason ↦ (
    emit (Event.status (deferred_message action reason) none) (
        request_sandbox_resume (
          record_activity (
            set_pending (some (record { action_type = action; app_key = key_of action app_key }))
              h))),
    true,
  )
]

replay : SessionMeta → PendingPreviewAction → SandboxMessage
replay meta action = elim action.action_type [
  | start ↦ build_preview_start_message meta action.app_key
  | stop ↦ SandboxMessage.preview_stop
]

unfoldable pub flush_pending_preview_action : Host → Host × Bool
unfolding replay
flush_pending_preview_action h = elim h.meta.pending_preview_action [
  | none ↦ (h, false)
  | some action ↦
      if is_some h.meta.sandbox_paused_at
        || is_terminal_state h.meta.state
        || not (sandbox_socket_attached h)
      then (h, false)
      else (send_to_sandbox (replay h.meta action) (set_pending none h), true)
]

-- `handlePreviewStart` and `handlePreviewStop` of packages/worker/src/orchestrator/cli-handlers.ts.
unfoldable pub handle_preview_start : Option String → Host → Host
handle_preview_start app_key h =
    let (h', deferred) = defer_preview_command start app_key h in
    if deferred then h' else send_to_sandbox (build_preview_start_message h'.meta app_key) h'

unfoldable pub handle_preview_stop : Host → Host
handle_preview_stop h =
    let (h', deferred) = defer_preview_command stop none h in
    if deferred then h' else send_to_sandbox SandboxMessage.preview_stop h'
