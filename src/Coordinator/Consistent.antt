-- ===== src/Coordinator/Consistent.antt =====
-- The invariant and the starting and finishing of runs
-- (packages/worker/src/orchestrator/agent-run-coordinator.ts).
use codevil.Base.{
  ◌≤◌, ◌≡◌, refl, List, [], ◌∷◌, Option, none, some, arith, String, ◌≢◌, Option-cases, inl, inr,
  Bool-cases, ◌∙◌,
}
use codevil.Session.{
  ready, retrying, is_valid_transition, is_state, is_state→eq, max_refinement_rounds,
}
use codevil.Room.{AgentRun, AgentRunState}
use codevil.AgentRuns.{start_run, finish_active_agent_run}
use codevil.Host.{Host, Event, transition, send_to_sandbox, save_meta, emit, update_directory}
use codevil.Activity.{event}
use codevil.Consistency.{IsConsistent, RunMatches}
use codevil.Consistency.Steps.{record_activity-IsConsistent, emit-IsConsistent}
use codevil.Coordinator.Drain.{take_next-queue}
use codevil.Coordinator.{
  Finish, begin_phase, enter_phase, start_with, take_next, drain_queue, finish_run_and_drain_queue,
  begin_planning, begin_executing, announce, set_active_run_state, reset_for, start_agent_run,
  return_ready, complete_active_run, fail_active_run_and_return_ready, fail_run_with,
}

-- What a session is while it has finished one run and not begun another: its row is up to date,
-- and its state can do without a run.
pub record IsBetween (h : Host) : Type 0 where
  pub durable : h.saved ≡ h.meta
  pub bounded : h.meta.refinement_round ≤ max_refinement_rounds
  pub restful : RunMatches h.meta.state none

take_next-IsConsistent :
    (final : AgentRunState) (h : Host)
    → IsBetween h
    → h.meta.queued_runs ≡ []
    → IsConsistent (take_next final h)
unfolding take_next finish_active_agent_run save_meta update_directory
take_next-IsConsistent final h b e = ground arith

begin_phase-IsConsistent :
    (finish : Finish) (run : AgentRun) (h : Host)
    → h.meta.state ≡ ready
    → h.saved ≡ h.meta
    → h.meta.refinement_round ≤ max_refinement_rounds
    → h.meta.active_run ≡ some run
    → IsConsistent (begin_phase finish run h)
unfolding begin_phase enter_phase begin_planning begin_executing announce set_active_run_state
    send_to_sandbox emit update_directory save_meta transition is_valid_transition
begin_phase-IsConsistent finish run h r d b a = ground arith

-- Either the run begins, or the session is as after a run that ended.
start_with-IsConsistent :
    (finish : Finish) (run : AgentRun) (h : Host)
    → IsBetween h
    → ((g : Host)
        → IsBetween g
        → g.meta.queued_runs ≡ h.meta.queued_runs
        → IsConsistent (finish AgentRunState.failed g))
    → IsConsistent (start_with finish run h)
unfolding start_with reset_for save_meta emit
start_with-IsConsistent finish run h b k = elim (Bool-cases (is_state h.meta.state ready)) [
  | inr other ↦
      rw (other, start_with)
        (k _ (record { durable = refl; bounded = omega arith; restful = b.restful }) refl)
  | inl is_ready ↦
      rw (is_ready, start_with)
        (begin_phase-IsConsistent finish run _ (is_state→eq h.meta.state ready is_ready) refl
          (omega arith) refl)
]

take_next-IsBetween :
    (final : AgentRunState) (h : Host) → IsBetween h → IsBetween (take_next final h)
unfolding take_next save_meta update_directory
take_next-IsBetween final h b = ground arith

drain_queue-IsConsistent :
    (queue : List AgentRun) (final : AgentRunState) (h : Host)
    → h.meta.queued_runs ≡ queue
    → IsBetween h
    → IsConsistent (drain_queue queue final h)
unfolding drain_queue
drain_queue-IsConsistent [] final h e b =
    record_activity-IsConsistent event _ (take_next-IsConsistent final h b e)
drain_queue-IsConsistent (next ∷ rest) final h e b = record_activity-IsConsistent event _ (
    rw (taken.1) (
      start_with-IsConsistent (drain_queue rest) (start_run next) h' (take_next-IsBetween final h b)
        (λ g between q.
          drain_queue-IsConsistent rest AgentRunState.failed g (q ∙ taken.0) between)))
  where
    h' : Host
    h' = take_next final h

    taken : (h'.meta.queued_runs ≡ rest) × (h'.meta.active_run ≡ some (start_run next))
    taken = take_next-queue final h next rest e

pub finish_run_and_drain_queue-IsConsistent :
    (final : AgentRunState) (h : Host)
    → IsBetween h
    → IsConsistent (finish_run_and_drain_queue final h)
unfolding finish_run_and_drain_queue
finish_run_and_drain_queue-IsConsistent final h b =
    drain_queue-IsConsistent h.meta.queued_runs final h refl b

pub start_agent_run-IsConsistent :
    (run : AgentRun) (h : Host) → IsBetween h → IsConsistent (start_agent_run run h)
unfolding start_agent_run
start_agent_run-IsConsistent run h b =
    start_with-IsConsistent finish_run_and_drain_queue run h b
      (λ g between _. finish_run_and_drain_queue-IsConsistent AgentRunState.failed g between)

pub return_ready-IsBetween :
    (h : Host) → IsConsistent h → h.meta.state ≢ retrying → IsBetween (return_ready h)
unfolding return_ready transition is_valid_transition save_meta emit
return_ready-IsBetween h c r = ground arith

pub emit-IsBetween : (e : Event) (h : Host) → IsBetween h → IsBetween (emit e h)
unfolding emit
emit-IsBetween e h b = ground arith

pub complete_active_run-IsConsistent :
    (url : Option String) (h : Host)
    → IsConsistent h
    → h.meta.state ≢ retrying
    → IsConsistent (complete_active_run url h)
unfolding complete_active_run
complete_active_run-IsConsistent url h c r = elim (Option-cases h.meta.active_run) [
  | inl idle ↦ rw (idle, complete_active_run) c
  | inr (run, e) ↦
      rw (e, complete_active_run)
        (finish_run_and_drain_queue-IsConsistent AgentRunState.completed _
          (emit-IsBetween _ _ (return_ready-IsBetween h c r)))
]

pub fail_active_run-IsConsistent :
    (message : String) (h : Host)
    → IsConsistent h
    → h.meta.state ≢ retrying
    → IsConsistent (fail_active_run_and_return_ready message h)
unfolding fail_active_run_and_return_ready fail_run_with emit
fail_active_run-IsConsistent message h c r = elim (Option-cases h.meta.active_run) [
  | inl idle ↦ rw (idle, fail_run_with) c
  | inr (run, e) ↦
      rw (e, fail_run_with)
        (finish_run_and_drain_queue-IsConsistent AgentRunState.failed _
          (return_ready-IsBetween _ (emit-IsConsistent _ h c) r))
]
