-- ===== src/Coordinator/Frame.antt =====
-- The part of a session that the starting and finishing of runs leaves alone
-- (packages/worker/src/orchestrator/agent-run-coordinator.ts).
use codevil.Base.{ℕ, ◌≡◌, refl, ◌∙◌, List, [], ◌∷◌, Option, none, some, arith, String, not, if_rule}
use codevil.Session.{SessionState, planning, executing, is_state, ready}
use codevil.Room.{AgentRun, AgentRunState}
use codevil.Host.{
  Host, Event, SandboxMessage, with_meta, transition, send_to_sandbox, save_meta, emit,
  update_directory,
}
use codevil.Activity.{ActivitySource, event, record_session_activity, mark_activity, arm_next_alarm}
use codevil.Coordinator.{
  Finish, begin_phase, enter_phase, start_with, take_next, drain_queue, finish_run_and_drain_queue,
  begin_planning, begin_executing, announce, set_active_run_state, reset_for, fail_run_with,
  return_ready,
}

-- What the session knows of its sandbox's connection is the same.
pub record KeepsSandbox (h g : Host) : Type 0 where
  pub paused_at : g.meta.sandbox_paused_at ≡ h.meta.sandbox_paused_at
  pub disconnected_at : g.meta.sandbox_disconnected_at ≡ h.meta.sandbox_disconnected_at
  pub expected_close : g.meta.expected_close ≡ h.meta.expected_close
  pub sockets : g.sockets ≡ h.sockets
  pub pausing : g.pausing ≡ h.pausing

pub KeepsSandbox-refl : (h : Host) → KeepsSandbox h h
KeepsSandbox-refl h = record {
  paused_at = refl;
  disconnected_at = refl;
  expected_close = refl;
  sockets = refl;
  pausing = refl;
}

pub KeepsSandbox-trans : {h g f : Host} → KeepsSandbox h g → KeepsSandbox g f → KeepsSandbox h f
KeepsSandbox-trans k l = record {
  paused_at = l.paused_at ∙ k.paused_at;
  disconnected_at = l.disconnected_at ∙ k.disconnected_at;
  expected_close = l.expected_close ∙ k.expected_close;
  sockets = l.sockets ∙ k.sockets;
  pausing = l.pausing ∙ k.pausing;
}

pub arm_next_alarm-KeepsSandbox : (now : ℕ) (h : Host) → KeepsSandbox h (arm_next_alarm now h)
unfolding arm_next_alarm
arm_next_alarm-KeepsSandbox now h = ground arith

mark_activity-KeepsSandbox : (h : Host) → KeepsSandbox h (mark_activity h)
unfolding mark_activity save_meta
mark_activity-KeepsSandbox h = ground arith

record_activity-KeepsSandbox :
    (s : ActivitySource) (h : Host) → KeepsSandbox h (record_session_activity s h)
unfolding record_session_activity
record_activity-KeepsSandbox s h = ground (
  arith,
  KeepsSandbox-refl h,
  mark_activity-KeepsSandbox h,
  KeepsSandbox-trans (mark_activity-KeepsSandbox h)
      (arm_next_alarm-KeepsSandbox h.now (mark_activity h)),
)

take_next-KeepsSandbox : (final : AgentRunState) (h : Host) → KeepsSandbox h (take_next final h)
unfolding take_next save_meta update_directory
take_next-KeepsSandbox final h = ground arith

pub emit-KeepsSandbox : (e : Event) (h : Host) → KeepsSandbox h (emit e h)
unfolding emit
emit-KeepsSandbox e h = ground arith

pub transition-KeepsSandbox :
    (state : SessionState) (h : Host) → KeepsSandbox h (transition state h).0
unfolding transition save_meta emit
transition-KeepsSandbox state h = ground arith

pub send_to_sandbox-KeepsSandbox :
    (m : SandboxMessage) (h : Host) → KeepsSandbox h (send_to_sandbox m h)
unfolding send_to_sandbox emit
send_to_sandbox-KeepsSandbox m h = ground arith

begin_planning-KeepsSandbox : (run : AgentRun) (h : Host) → KeepsSandbox h (begin_planning run h)
unfolding begin_planning announce set_active_run_state send_to_sandbox emit update_directory
    save_meta
begin_planning-KeepsSandbox run h = ground arith

begin_executing-KeepsSandbox : (run : AgentRun) (h : Host) → KeepsSandbox h (begin_executing run h)
unfolding begin_executing announce set_active_run_state send_to_sandbox emit update_directory
    save_meta
begin_executing-KeepsSandbox run h = ground arith

reset-KeepsSandbox :
    (run : AgentRun) (h : Host) → KeepsSandbox h (save_meta (with_meta (reset_for run h.meta) h))
unfolding save_meta reset_for
reset-KeepsSandbox run h = ground arith

-- What is done with a run, if there is one.
optional-KeepsSandbox :
    (h : Host) (o : Option AgentRun) (f : AgentRun → Host)
    → ((run : AgentRun) → KeepsSandbox h (f run))
    → KeepsSandbox h (elim o [ none ↦ h | some run ↦ f run ])
optional-KeepsSandbox h none f k = KeepsSandbox-refl h
optional-KeepsSandbox h (some run) f k = k run

module _ (finish : Finish)
    (k : (final : AgentRunState) (g : Host) → KeepsSandbox g (finish final g)) where
  return_ready-KeepsSandbox : (h : Host) → KeepsSandbox h (return_ready h)
  unfolding return_ready
  return_ready-KeepsSandbox h = ground (arith, transition-KeepsSandbox ready h, KeepsSandbox-refl h)

  fail_run_with-KeepsSandbox :
      (message : String) (h : Host) → KeepsSandbox h (fail_run_with finish message h)
  unfolding fail_run_with
  fail_run_with-KeepsSandbox message h = optional-KeepsSandbox h h.meta.active_run _ (λ run.
      KeepsSandbox-trans (emit-KeepsSandbox (Event.agent_run_failed run.id message) h)
        (KeepsSandbox-trans (return_ready-KeepsSandbox _) (k AgentRunState.failed _)))

  enter_phase-KeepsSandbox :
      (run : AgentRun) (state : SessionState) (begin : Host → Host) (h : Host)
      → ((g : Host) → KeepsSandbox g (begin g))
      → KeepsSandbox h (enter_phase finish run state begin h)
  unfolding enter_phase
  enter_phase-KeepsSandbox run state begin h b =
      let moved = transition-KeepsSandbox state h in
      if_rule (KeepsSandbox h) (transition state h).1
        (KeepsSandbox-trans moved (b (transition state h).0))
        (KeepsSandbox-trans moved (fail_run_with-KeepsSandbox _ (transition state h).0))

  start_with-KeepsSandbox : (run : AgentRun) (h : Host) → KeepsSandbox h (start_with finish run h)
  unfolding start_with begin_phase save_meta reset_for
  start_with-KeepsSandbox run h = KeepsSandbox-trans (reset-KeepsSandbox run h) (
      if_rule (KeepsSandbox (save_meta (with_meta (reset_for run h.meta) h)))
        (not (is_state h.meta.state ready))
        (KeepsSandbox-trans (emit-KeepsSandbox _ _) (k AgentRunState.failed _))
        (if_rule (KeepsSandbox (save_meta (with_meta (reset_for run h.meta) h))) run.plan_first
          (enter_phase-KeepsSandbox run planning (begin_planning run) _
            (begin_planning-KeepsSandbox run))
          (enter_phase-KeepsSandbox run executing (begin_executing run) _
            (begin_executing-KeepsSandbox run))))

drain_queue-KeepsSandbox :
    (queue : List AgentRun) (final : AgentRunState) (h : Host)
    → KeepsSandbox h (drain_queue queue final h)
unfolding drain_queue
drain_queue-KeepsSandbox [] final h =
    KeepsSandbox-trans (take_next-KeepsSandbox final h) (record_activity-KeepsSandbox event _)
drain_queue-KeepsSandbox (next ∷ rest) final h =
    KeepsSandbox-trans (take_next-KeepsSandbox final h) (
      KeepsSandbox-trans
        (optional-KeepsSandbox (take_next final h) (take_next final h).meta.active_run _ (λ run.
          start_with-KeepsSandbox (drain_queue rest) (drain_queue-KeepsSandbox rest) run
            (take_next final h)))
        (record_activity-KeepsSandbox event _))

pub finish_run_and_drain_queue-KeepsSandbox :
    (final : AgentRunState) (h : Host) → KeepsSandbox h (finish_run_and_drain_queue final h)
unfolding finish_run_and_drain_queue
finish_run_and_drain_queue-KeepsSandbox final h =
    drain_queue-KeepsSandbox h.meta.queued_runs final h
