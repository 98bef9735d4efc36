-- ===== src/Teardown/Consistent.antt =====
-- The invariant and the ends of a session
-- (packages/worker/src/orchestrator/sandbox-session-lifecycle.ts, packages/worker/src/orchestrator.ts).
use codevil.Base.{
  ℕ, ◌≡◌, Bool, true, String, Option, none, some, arith, inl, inr, Option-cases, if_rule, not, leb,
  ◌+◌,
}
use codevil.Session.{failed, timed_out, is_valid_transition, is_terminal_state}
use codevil.Host.{Host, emit, save_meta, transition, revoke_preview}
use codevil.Consistency.{IsConsistent}
use codevil.Consistency.Steps.{
  emit-IsConsistent, update_directory-IsConsistent, arm_next_alarm-IsConsistent,
}
use codevil.CliHandlers.Consistent.{cancel_open_questions-IsConsistent}
use codevil.Teardown.{
  terminate_sandbox, cancel_questions_of, fail_if_live, handle_stop_session,
  expire_session_at_max_time, fail_reconnecting_run, fail_expired_sandbox_reconnect,
}

pub revoke_preview-IsConsistent : (h : Host) → IsConsistent h → IsConsistent (revoke_preview h)
unfolding revoke_preview save_meta
revoke_preview-IsConsistent h c = ground arith

pub cancel_questions_of-IsConsistent :
    (run : Option String) (reason : String) (h : Host)
    → IsConsistent h
    → IsConsistent (cancel_questions_of run reason h)
unfolding cancel_questions_of
cancel_questions_of-IsConsistent none reason h c = c
cancel_questions_of-IsConsistent (some run) reason h c =
    cancel_open_questions-IsConsistent run reason h c

pub fail_transition-IsConsistent :
    (h : Host) → IsConsistent h → IsConsistent (transition failed h).0
unfolding transition is_valid_transition save_meta emit
fail_transition-IsConsistent h c = ground arith

pub terminate_sandbox-IsConsistent :
    (h : Host) → IsConsistent h → IsConsistent (terminate_sandbox h)
unfolding terminate_sandbox save_meta
terminate_sandbox-IsConsistent h c = ground arith

fail_if_live-IsConsistent : (h : Host) → IsConsistent h → IsConsistent (fail_if_live h)
unfolding fail_if_live
fail_if_live-IsConsistent h c = if_rule IsConsistent _ (fail_transition-IsConsistent h c) c

pub handle_stop_session-IsConsistent :
    (h : Host) → IsConsistent h → IsConsistent (handle_stop_session h)
unfolding handle_stop_session
handle_stop_session-IsConsistent h c = arm_next_alarm-IsConsistent _ _ (
    terminate_sandbox-IsConsistent _ (
      revoke_preview-IsConsistent _ (
        emit-IsConsistent _ _
          (cancel_questions_of-IsConsistent _ _ _ (fail_if_live-IsConsistent h c)))))

pub time_out-IsConsistent : (h : Host) → IsConsistent h → IsConsistent (transition timed_out h).0
unfolding transition is_valid_transition save_meta emit
time_out-IsConsistent h c = ground arith

pub expire_session-IsConsistent :
    (now : ℕ) (h : Host) → IsConsistent h → IsConsistent (expire_session_at_max_time now h).0
unfolding expire_session_at_max_time
expire_session-IsConsistent now h c = elim (Option-cases h.meta.max_time_ms) [
  | inl e ↦ rw (e, expire_session_at_max_time) c
  | inr (limit, e) ↦
      rw (e, expire_session_at_max_time)
        (if_rule (λ (r : Host × Bool). IsConsistent r.0) (not (leb (h.meta.created_at + limit) now))
          c
          (terminate_sandbox-IsConsistent _ (
            emit-IsConsistent _ _
              (cancel_questions_of-IsConsistent _ _ _ (time_out-IsConsistent h c)))))
]

fail_reconnecting-IsConsistent :
    (message : String) (h : Host)
    → IsConsistent h
    → is_terminal_state h.meta.state ≡ true
    → IsConsistent (fail_reconnecting_run message h)
unfolding fail_reconnecting_run is_terminal_state save_meta
fail_reconnecting-IsConsistent message h c t = elim (Option-cases h.meta.active_run) [
  | inl e ↦ rw (e, fail_reconnecting_run) c
  | inr (run, e) ↦
      rw (e, fail_reconnecting_run)
        (emit-IsConsistent _ _ (cancel_open_questions-IsConsistent _ _ _ (ground arith)))
]

failed_is_terminal : (h : Host) → is_terminal_state (transition failed h).0.meta.state ≡ true
unfolding transition is_valid_transition is_terminal_state save_meta emit
failed_is_terminal h = ground arith

pub fail_expired-IsConsistent :
    (h : Host) → IsConsistent h → IsConsistent (fail_expired_sandbox_reconnect h)
unfolding fail_expired_sandbox_reconnect
fail_expired-IsConsistent h c = if_rule IsConsistent _ c (
    arm_next_alarm-IsConsistent _ _ (
      terminate_sandbox-IsConsistent _ (
        update_directory-IsConsistent _ _ (
          emit-IsConsistent _ _ (
            fail_reconnecting-IsConsistent _ _ (fail_transition-IsConsistent h c)
              (failed_is_terminal h))))))
