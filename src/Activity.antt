-- ===== src/Activity.antt =====
-- The part of packages/worker/src/orchestrator/sandbox-session-lifecycle.ts that a handler runs at
-- once: attached sockets, the idle-pause clock and the alarm's deadlines.
use codevil.Base.{
  ℕ, ◌-◌, Bool, true, false, not, ◌&&◌, ◌||◌, Option, none, some, is_some, is_empty, length, leb,
  ltb, if◌then◌else◌, get_or_else,
}
use codevil.Session.{is_terminal_state}
use codevil.Connection.{live_sandbox_sockets}
use codevil.Lifecycle.{
  IdlePauseInput, should_pause_sandbox, idle_pause_deadline, lease_renew_deadline,
}
use codevil.Alarm.{next_alarm_deadline}
use codevil.Host.{Host, with_meta, save_meta}
use codevil.QuestionsStore.{list_open_question_ids}

abbrev pub activity_write_interval_ms : ℕ
activity_write_interval_ms = 1_000

pub data ActivitySource : Type 0 where
  event preview : ActivitySource

unfoldable pub sandbox_socket_attached : Host → Bool
sandbox_socket_attached h = not (is_empty (live_sandbox_sockets h.sockets)) && not h.pausing

unfoldable pub idle_pause_input : Host → Option ℕ → IdlePauseInput
idle_pause_input h now = record {
  now = now;
  pause_supported = h.capabilities.pause_resume;
  session_state = meta.state;
  paused = is_some meta.sandbox_paused_at;
  sandbox_connected = sandbox_socket_attached h;
  disconnected_at = meta.sandbox_disconnected_at;
  has_active_run = is_some meta.active_run;
  queued_runs = length meta.queued_runs;
  open_questions = elim meta.active_run [
    | none ↦ 0
    | some run ↦ length (list_open_question_ids h.questions run.id)
  ];
  last_activity_at = get_or_else meta.last_activity_at meta.created_at;
  max_idle_ms = meta.max_idle_ms;
}
  where
    open h use {meta}

pub record SandboxAlarmDeadlines : Type 0 where
  pub idle_pause_at : Option ℕ
  pub lease_renew_at : Option ℕ

unfoldable pub sandbox_alarm_deadlines : Host → SandboxAlarmDeadlines
sandbox_alarm_deadlines h =
    if is_terminal_state h.meta.state || is_some h.meta.sandbox_paused_at
    then record { idle_pause_at = none; lease_renew_at = none }
    else record {
      idle_pause_at =
          if should_pause_sandbox input
          then idle_pause_deadline input.last_activity_at input.max_idle_ms
          else none;
      lease_renew_at =
          if is_some h.meta.sandbox_ref && h.capabilities.lease_renewal
          then some (lease_renew_deadline h.meta.sandbox_lease_renewed_at h.meta.created_at)
          else none;
    }
  where
    input : IdlePauseInput
    input = idle_pause_input h none

-- `armNextAlarm`: the storage's alarm is replaced if a deadline lies ahead.
unfoldable pub arm_next_alarm : ℕ → Host → Host
arm_next_alarm now h = elim deadline [ none ↦ h | some d ↦ record h { alarm = some d } ]
  where
    deadline : Option ℕ
    deadline = next_alarm_deadline (record {
      now = now;
      state = h.meta.state;
      created_at = h.meta.created_at;
      max_time_ms = h.meta.max_time_ms;
      sandbox_disconnected_at = h.meta.sandbox_disconnected_at;
      presentation_retry_at = h.presentation_retry_at;
      workspace_cache_retry_at = get_or_else h.workspace_cache_job none;
      idle_pause_at = (sandbox_alarm_deadlines h).idle_pause_at;
      lease_renew_at = (sandbox_alarm_deadlines h).lease_renew_at;
    })

-- The last write is less than a second old; a time ahead of the clock does not count.
unfoldable pub is_throttled : Option ℕ → ℕ → Bool
is_throttled none now = false
is_throttled (some last) now = leb last now && ltb (now - last) activity_write_interval_ms

abbrev pub is_preview : ActivitySource → Bool
is_preview event = false
is_preview preview = true

unfoldable pub mark_activity : Host → Host
mark_activity h =
    if is_throttled h.meta.last_activity_at h.now
    then h
    else save_meta (with_meta (record h.meta { last_activity_at = some h.now }) h)

unfoldable pub record_session_activity : ActivitySource → Host → Host
record_session_activity source h =
    let marked = mark_activity h in
    if not h.capabilities.pause_resume
    then h
    else if is_preview source && is_throttled h.meta.last_activity_at h.now
    then marked
    else if is_some (sandbox_alarm_deadlines marked).idle_pause_at
    then arm_next_alarm h.now marked
    else marked

abbrev pub record_activity : Host → Host
record_activity = record_session_activity event
