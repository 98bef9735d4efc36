-- ===== src/Pausing/Consistent.antt =====
-- The invariant and the pausing and resuming of a sandbox
-- (packages/worker/src/orchestrator/sandbox-session-lifecycle.ts).
use codevil.Base.{
  ℕ, ◌-◌, false, not, ◌||◌, String, none, is_some, is_empty, arith, if_rule, if◌then◌else◌,
}
use codevil.Session.{is_terminal_state}
use codevil.Connection.{live_sandbox_sockets}
use codevil.Host.{Host, save_meta, with_meta, emit, update_directory, request_sandbox_resume}
use codevil.Consistency.{IsConsistent}
use codevil.Consistency.Steps.{arm_next_alarm-IsConsistent}
use codevil.CliHandlers.Requests.{drain_queued-IsConsistent}
use codevil.Preview.Replay.{flush-IsConsistent}
use codevil.Teardown.{fail_session}
use codevil.Teardown.Consistent.{terminate_sandbox-IsConsistent}
use codevil.Teardown.Outstanding.{HasEnded}
use codevil.Pausing.{
  fail_lost_sandbox, release_work, wants_pause, begin_pause, PauseOutcome, pause_done, pause_lost,
  pause_failed, mark_paused, keep_sandbox, settle_pause, start_reconnect_grace,
  recover_after_failed_pause, end_pause, mark_resumed, complete_resume, fail_sandbox_resume,
  ResumeOutcome, resume_done, resume_lost, resume_failed, settle_attempt, clear_stale_paused_marker,
  assume_sandbox_paused_after_eviction, LeaseOutcome, lease_renewed, lease_lost, lease_failed,
  settle_lease,
}
use codevil.Pausing.Settled.{after_failing}

ended-IsConsistent :
    (message : String) (h g : Host) → IsConsistent h → HasEnded message h g → IsConsistent g
ended-IsConsistent message h g c e = record {
  durable = e.durable;
  bounded = omega (arith, e.rounds, c.bounded);
  matched = rw (e.ended) tt;
}

failing-IsConsistent :
    (message reason : String) (h : Host) (k : Host → Host)
    → ((g : Host) → IsConsistent g → IsConsistent (k g))
    → IsConsistent h
    → let (g, ended) = fail_session message reason h in IsConsistent (if ended then k g else g)
failing-IsConsistent message reason h k s c =
    after_failing IsConsistent message reason h k (λ over. c)
      (λ g ended. s g (ended-IsConsistent message h g c ended))

pub fail_lost-IsConsistent : (h : Host) → IsConsistent h → IsConsistent (fail_lost_sandbox h)
unfolding fail_lost_sandbox
fail_lost-IsConsistent h c =
    failing-IsConsistent _ _ h _ (λ g d. arm_next_alarm-IsConsistent (h.now - 1) g d) c

pub fail_resume-IsConsistent : (h : Host) → IsConsistent h → IsConsistent (fail_sandbox_resume h)
unfolding fail_sandbox_resume
fail_resume-IsConsistent h c =
    failing-IsConsistent _ _ h _
      (λ g d. arm_next_alarm-IsConsistent (h.now - 1) _ (terminate_sandbox-IsConsistent g d)) c

pub release_work-IsConsistent : (h : Host) → IsConsistent h → IsConsistent (release_work h)
unfolding release_work
release_work-IsConsistent h c =
    arm_next_alarm-IsConsistent _ _ (flush-IsConsistent _ (drain_queued-IsConsistent h c))

pub begin_pause-IsConsistent :
    (now : ℕ) (h : Host) → IsConsistent h → IsConsistent (begin_pause now h)
unfolding begin_pause wants_pause save_meta
begin_pause-IsConsistent now h c = ground arith

mark_paused-IsConsistent : (now : ℕ) (h : Host) → IsConsistent h → IsConsistent (mark_paused now h)
unfolding mark_paused save_meta emit update_directory request_sandbox_resume
mark_paused-IsConsistent now h c = ground arith

keep_sandbox-IsConsistent : (h : Host) → IsConsistent h → IsConsistent (keep_sandbox h)
unfolding keep_sandbox save_meta
keep_sandbox-IsConsistent h c = ground arith

settle_pause-IsConsistent :
    (o : PauseOutcome) (now : ℕ) (h : Host) → IsConsistent h → IsConsistent (settle_pause o now h).0
unfolding settle_pause
settle_pause-IsConsistent pause_lost now h c = fail_lost-IsConsistent h c
settle_pause-IsConsistent pause_failed now h c = keep_sandbox-IsConsistent h c
settle_pause-IsConsistent pause_done now h c = ground (arith, mark_paused-IsConsistent now h c)

pub grace-IsConsistent : (h : Host) → IsConsistent h → IsConsistent (start_reconnect_grace h)
unfolding start_reconnect_grace emit update_directory save_meta
grace-IsConsistent h c = ground arith

recover-IsConsistent : (h : Host) → IsConsistent h → IsConsistent (recover_after_failed_pause h)
unfolding recover_after_failed_pause
recover-IsConsistent h c =
    if_rule IsConsistent (is_terminal_state h.meta.state || is_some h.meta.sandbox_paused_at) c (
      release_work-IsConsistent _ (
        if_rule IsConsistent (is_empty (live_sandbox_sockets h.sockets)) (grace-IsConsistent h c)
          c))

done-IsConsistent : (h : Host) → IsConsistent h → IsConsistent (record h { pausing = false })
done-IsConsistent h c = ground arith

pub end_pause-IsConsistent :
    (o : PauseOutcome) (now : ℕ) (h : Host) → IsConsistent h → IsConsistent (end_pause o now h)
unfolding end_pause
end_pause-IsConsistent o now h c =
    let done = done-IsConsistent _ (settle_pause-IsConsistent o now h c) in
    if_rule IsConsistent (settle_pause o now h).1 done (recover-IsConsistent _ done)

mark_resumed-IsConsistent :
    (now : ℕ) (h : Host) → IsConsistent h → IsConsistent (mark_resumed now h)
unfolding mark_resumed save_meta emit update_directory
mark_resumed-IsConsistent now h c = ground arith

pub settle_attempt-IsConsistent :
    (o : ResumeOutcome) (now : ℕ) (h : Host)
    → IsConsistent h
    → IsConsistent (settle_attempt o now h)
unfolding settle_attempt complete_resume
settle_attempt-IsConsistent resume_done now h c =
    if_rule IsConsistent (not (is_some h.meta.sandbox_paused_at) || is_terminal_state h.meta.state)
      c (release_work-IsConsistent _ (mark_resumed-IsConsistent now h c))
settle_attempt-IsConsistent resume_lost now h c = fail_lost-IsConsistent h c
settle_attempt-IsConsistent resume_failed now h c = c

wake-IsConsistent :
    (h : Host)
    → IsConsistent h
    → IsConsistent (
        save_meta
          (with_meta (record h.meta { sandbox_paused_at = none; expected_close = false }) h))
unfolding save_meta
wake-IsConsistent h c = ground arith

pub clear_stale-IsConsistent :
    (h : Host) → IsConsistent h → IsConsistent (clear_stale_paused_marker h).0
unfolding clear_stale_paused_marker
clear_stale-IsConsistent h c = ground (arith, flush-IsConsistent _ (wake-IsConsistent h c))

pub assume_paused-IsConsistent :
    (now : ℕ) (h : Host)
    → IsConsistent h
    → IsConsistent (assume_sandbox_paused_after_eviction now h).0
unfolding assume_sandbox_paused_after_eviction save_meta update_directory
assume_paused-IsConsistent now h c = ground arith

pub settle_lease-IsConsistent :
    (o : LeaseOutcome) (now : ℕ) (h : Host) → IsConsistent h → IsConsistent (settle_lease o now h)
unfolding settle_lease save_meta
settle_lease-IsConsistent lease_renewed now h c = ground arith
settle_lease-IsConsistent lease_lost now h c = fail_lost-IsConsistent h c
settle_lease-IsConsistent lease_failed now h c = c
