-- ===== src/Pausing.antt =====
-- Pausing, resuming and renewing the sandbox of a session
-- (packages/worker/src/orchestrator/sandbox-session-lifecycle.ts). A function of the source that
-- waits for the provider is two definitions here: what it does before and what it does when the
-- provider has answered, so that other handlers may run between them.
pub mod Consistent
pub mod Settled
use codevil.Base.{
  ℕ, zero, suc, ◌-◌, Bool, true, false, not, ◌&&◌, ◌||◌, String, str_eq, List, [], ◌∷◌, Option,
  none, some, is_some, is_empty, leb, if◌then◌else◌,
}
use codevil.Session.{ready, cloning_repo, is_state, is_terminal_state}
use codevil.Room.{SandboxState}
use codevil.Connection.{live_sandbox_sockets, close_sandbox_sockets}
use codevil.Lifecycle.{should_pause_sandbox, lease_renew_deadline}
use codevil.Host.{
  Host, Event, DirectoryPatch, no_patch, with_meta, save_meta, emit, update_directory,
  request_sandbox_resume,
}
use codevil.Activity.{idle_pause_input, sandbox_socket_attached, arm_next_alarm}
use codevil.CliHandlers.{drain_queued_agent_work_if_ready}
use codevil.Preview.{flush_pending_preview_action}
use codevil.Teardown.{fail_session, terminate_sandbox}

abbrev pub resume_attempts : ℕ
resume_attempts = 3

abbrev pub sandbox_patch : SandboxState → DirectoryPatch
sandbox_patch state = record no_patch { sandbox_state = some state }

unfoldable pub fail_lost_sandbox : Host → Host
fail_lost_sandbox h =
    let (g, ended) = fail_session "Sandbox expired." "sandbox expired" h in
    if ended then arm_next_alarm (h.now - 1) g else g

-- Work that waits is released: queued runs, a preview command and the alarm.
unfoldable pub release_work : Host → Host
release_work h0 =
    let h = (flush_pending_preview_action (drain_queued_agent_work_if_ready h0)).0 in
    arm_next_alarm h.now h

-- Whether `pauseIdleSandbox` calls the provider.
unfoldable pub wants_pause : ℕ → Host → Bool
wants_pause now h = not h.pausing && should_pause_sandbox (idle_pause_input h (some now))

-- `doPause` up to the call of the provider.
unfoldable pub begin_pause : ℕ → Host → Host
begin_pause now h =
    if wants_pause now h
    then record (save_meta (with_meta (record h.meta { expected_close = true }) h)) {
      pausing = true;
    }
    else h

-- How the provider answers: the sandbox is paused, it is not there, or the call failed.
pub data PauseOutcome : Type 0 where
  pause_done pause_lost pause_failed : PauseOutcome

unfoldable pub mark_paused : ℕ → Host → Host
mark_paused now h0 = if is_empty h.meta.queued_runs then h else request_sandbox_resume h
  where
    saved : Host
    saved = save_meta (with_meta (record h0.meta { sandbox_paused_at = some now }) h0)

    closed : Host
    closed = record saved { sockets = close_sandbox_sockets saved.sockets }

    h : Host
    h =
        emit (Event.status "Sandbox paused (idle)." none)
          (update_directory (sandbox_patch SandboxState.paused) closed)

unfoldable pub keep_sandbox : Host → Host
keep_sandbox h =
    if is_terminal_state h.meta.state
    then h
    else save_meta (with_meta (record h.meta { expected_close = false }) h)

-- The rest of `doPause`; the flag says whether the sandbox is paused.
unfoldable pub settle_pause : PauseOutcome → ℕ → Host → Host × Bool
settle_pause pause_lost now h = (fail_lost_sandbox h, false)
settle_pause pause_failed now h = (keep_sandbox h, false)
settle_pause pause_done now h =
    if is_terminal_state h.meta.state then (h, false) else (mark_paused now h, true)

-- The reconnect grace starts if no agent is attached and it does not run yet.
unfoldable pub start_reconnect_grace : Host → Host
start_reconnect_grace h =
    if is_some h.meta.sandbox_disconnected_at
    then h
    else update_directory no_patch (
        emit (Event.status "Sandbox connection interrupted. Reconnecting…" none)
          (save_meta (with_meta (record h.meta { sandbox_disconnected_at = some h.now }) h)))

unfoldable pub recover_after_failed_pause : Host → Host
recover_after_failed_pause h =
    if is_terminal_state h.meta.state || is_some h.meta.sandbox_paused_at
    then h
    else release_work
        (if is_empty (live_sandbox_sockets h.sockets) then start_reconnect_grace h else h)

-- The rest of `pauseIdleSandbox`, once the provider has answered.
unfoldable pub end_pause : PauseOutcome → ℕ → Host → Host
end_pause outcome now h =
    let (g, paused) = settle_pause outcome now h in
    let done = record g { pausing = false } in
    if paused then done else recover_after_failed_pause done

unfoldable pub mark_resumed : ℕ → Host → Host
mark_resumed now h0 =
    emit (Event.status "Sandbox resumed." none) (update_directory (sandbox_patch state) saved)
  where
    state : SandboxState
    state = if is_state h0.meta.state cloning_repo then SandboxState.cloning else SandboxState.ready

    saved : Host
    saved = save_meta (
        with_meta
          (record h0.meta {
            sandbox_paused_at = none;
            expected_close = false;
            sandbox_lease_renewed_at =
                if h0.capabilities.lease_renewal
                then some now
                else h0.meta.sandbox_lease_renewed_at;
            sandbox_disconnected_at =
                if is_empty (live_sandbox_sockets h0.sockets)
                then some h0.now
                else h0.meta.sandbox_disconnected_at;
          })
          h0)

unfoldable pub complete_resume : ℕ → Host → Host
complete_resume now h =
    if not (is_some h.meta.sandbox_paused_at) || is_terminal_state h.meta.state
    then h
    else release_work (mark_resumed now h)

unfoldable pub fail_sandbox_resume : Host → Host
fail_sandbox_resume h =
    let (g, ended) = fail_session "Sandbox failed to resume." "sandbox failed to resume" h in
    if ended then arm_next_alarm (h.now - 1) (terminate_sandbox g) else g

-- How an attempt goes: the provider connects and the token is written, the sandbox is not there, or
-- one of the calls fails.
pub data ResumeOutcome : Type 0 where
  resume_done resume_lost resume_failed : ResumeOutcome

unfoldable pub settle_attempt : ResumeOutcome → ℕ → Host → Host
settle_attempt resume_done now h = complete_resume now h
settle_attempt resume_lost now h = fail_lost_sandbox h
settle_attempt resume_failed now h = h

abbrev pub goes_on : ResumeOutcome → Bool
goes_on resume_failed = true
goes_on _ = false

-- The loop of `doResume` with the attempts that are left. Other handlers run while it waits before
-- an attempt and during one: `waiting` and `calling` say what they do, by the attempts left.
unfoldable pub try_resume :
    (ℕ → Host → Host) → (ℕ → Host → Host) → (ℕ → ResumeOutcome) → ℕ → Host → Host
try_resume waiting calling outcome zero h = fail_sandbox_resume h
try_resume waiting calling outcome (suc left) h0 =
    let h = waiting left h0 in
    let g = settle_attempt (outcome left) h.now (calling left h) in
    let rest = try_resume waiting calling outcome left g in
    if not (is_some h.meta.sandbox_paused_at) || is_terminal_state h.meta.state
    then h
    else if goes_on (outcome left)
    then rest
    else g

-- `sandboxRefForMeta`: one provider names its sandboxes by the session.
unfoldable pub has_sandbox_ref : String → Host → Bool
has_sandbox_ref sandbox_provider h =
    is_some h.meta.sandbox_ref || str_eq sandbox_provider "cloudflare"

-- `resumeSandbox` without a resume in flight, once a pause in flight has ended.
unfoldable pub resume_sandbox :
    String → (ℕ → Host → Host) → (ℕ → Host → Host) → (ℕ → ResumeOutcome) → Host → Host
resume_sandbox sandbox_provider waiting calling outcome h =
    if not (is_some h.meta.sandbox_paused_at) || is_terminal_state h.meta.state
    then h
    else if not (has_sandbox_ref sandbox_provider h)
    then fail_lost_sandbox h
    else try_resume waiting calling outcome resume_attempts h

unfoldable pub clear_stale_paused_marker : Host → Host × Bool
clear_stale_paused_marker h =
    if not (is_some h.meta.sandbox_paused_at) || h.resuming || not (sandbox_socket_attached h)
    then (h, false)
    else (
      (flush_pending_preview_action (
          save_meta
            (with_meta (record h.meta { sandbox_paused_at = none; expected_close = false }) h))).0,
      true,
    )

unfoldable pub assume_sandbox_paused_after_eviction : ℕ → Host → Host × Bool
assume_sandbox_paused_after_eviction now h =
    if not h.capabilities.pause_resume
      || not (is_state h.meta.state ready)
      || not h.meta.expected_close
      || is_some h.meta.sandbox_paused_at
      || h.pausing
      || h.resuming
      || not (is_empty (live_sandbox_sockets h.sockets))
      || is_some h.meta.sandbox_disconnected_at
    then (h, false)
    else (
      update_directory (sandbox_patch SandboxState.paused)
          (save_meta (with_meta (record h.meta { sandbox_paused_at = some now }) h)),
      true,
    )

-- Whether `renewSandboxLeaseIfDue` calls the provider.
unfoldable pub lease_is_due : ℕ → Host → Bool
lease_is_due now h = not (
    not (is_some h.meta.sandbox_ref)
    || is_some h.meta.sandbox_paused_at
    || is_terminal_state h.meta.state
    || h.pausing
    || not h.capabilities.lease_renewal
    || not (leb (lease_renew_deadline h.meta.sandbox_lease_renewed_at h.meta.created_at) now))

pub data LeaseOutcome : Type 0 where
  lease_renewed lease_lost lease_failed : LeaseOutcome

unfoldable pub settle_lease : LeaseOutcome → ℕ → Host → Host
settle_lease lease_renewed now h =
    if is_terminal_state h.meta.state
    then h
    else save_meta (with_meta (record h.meta { sandbox_lease_renewed_at = some now }) h)
settle_lease lease_lost now h = fail_lost_sandbox h
settle_lease lease_failed now h = h
