-- ===== src/Coordinator/Queue.antt =====
-- What becomes of the queued runs when the active one ends
-- (packages/worker/src/orchestrator/agent-run-coordinator.ts).
use codevil.Base.{
  ℕ, ◌≡◌, refl, false, List, [], ◌∷◌, none, some, arith, ◌∙◌, ap, subst, if◌then◌else◌,
}
use codevil.Session.{SessionState, ready, planning, executing, is_state, is_valid_transition}
use codevil.Room.{AgentRun, AgentRunState}
use codevil.AgentRuns.{start_run}
use codevil.Host.{
  Host, Event, with_meta, emit, save_meta, update_directory, transition, send_to_sandbox,
}
use codevil.Activity.{record_session_activity, mark_activity, arm_next_alarm, event}
use codevil.Coordinator.{
  Finish, begin_phase, enter_phase, begin_planning, begin_executing, announce, set_active_run_state,
  start_with, reset_for, take_next, drain_queue, finish_run_and_drain_queue, cannot_start,
  start_agent_run,
}
use codevil.Coordinator.Drain.{
  start_next, finish_run_and_drain_queue_lem, take_next-queue, take_next-none,
}

-- Nothing of the runs has changed, nor has anything been said.
pub record KeepsRuns (h g : Host) : Type 0 where
  pub state : g.meta.state ≡ h.meta.state
  pub active : g.meta.active_run ≡ h.meta.active_run
  pub queue : g.meta.queued_runs ≡ h.meta.queued_runs
  pub events : g.events ≡ h.events
  pub prompt : g.meta.prompt ≡ h.meta.prompt
  pub plan : g.meta.latest_plan ≡ h.meta.latest_plan
  pub decision : g.meta.last_decision ≡ h.meta.last_decision
  pub round : g.meta.refinement_round ≡ h.meta.refinement_round
  pub attempts : g.meta.verification_attempts ≡ h.meta.verification_attempts

mark_activity-KeepsRuns : (h : Host) → KeepsRuns h (mark_activity h)
unfolding mark_activity save_meta
mark_activity-KeepsRuns h = ground arith

arm_next_alarm-KeepsRuns : (now : ℕ) (h : Host) → KeepsRuns h (arm_next_alarm now h)
unfolding arm_next_alarm
arm_next_alarm-KeepsRuns now h = ground arith

pub record_activity-KeepsRuns : (h : Host) → KeepsRuns h (record_session_activity event h)
unfolding record_session_activity
record_activity-KeepsRuns h =
    ground (arith, mark_activity-KeepsRuns h, arm_next_alarm-KeepsRuns h.now (mark_activity h))

-- The events of runs that fail one after the other, the last one first.
abbrev pub failures : SessionState → List AgentRun → List Event → List Event
failures state [] events = events
failures state (run ∷ runs) events =
    failures state runs (Event.agent_run_failed run.id (cannot_start state) ∷ events)

-- Every run of `queue` has failed, and the session is without runs.
pub record HasFailed (queue : List AgentRun) (h g : Host) : Type 0 where
  pub state : g.meta.state ≡ h.meta.state
  pub active : g.meta.active_run ≡ none
  pub queue_empty : g.meta.queued_runs ≡ []
  pub events : g.events ≡ failures h.meta.state queue h.events

pub take_next-kept :
    (final : AgentRunState) (h : Host)
    → ((take_next final h).meta.state ≡ h.meta.state) × ((take_next final h).events ≡ h.events)
unfolding take_next save_meta update_directory
take_next-kept final h = (refl, refl)

not_started :
    (finish : Finish) (run : AgentRun) (h : Host)
    → is_state h.meta.state ready ≡ false
    → (g : Host) × (start_with finish run h ≡ finish AgentRunState.failed g)
      × (g.meta.state ≡ h.meta.state)
      × (g.meta.queued_runs ≡ h.meta.queued_runs)
      × (g.events ≡ Event.agent_run_failed run.id (cannot_start h.meta.state) ∷ h.events)
unfolding start_with reset_for save_meta emit
not_started finish run h e = (
  emit (Event.agent_run_failed run.id (cannot_start h.meta.state))
      (save_meta (with_meta (reset_for run h.meta) h)),
  rw (e, start_with) refl,
  refl,
  refl,
  refl,
)

-- The failure of one run, and then of those behind it.
failed_first :
    (next : AgentRun) (rest : List AgentRun) (h g f k : Host)
    → g.meta.state ≡ h.meta.state
    → g.events ≡ Event.agent_run_failed next.id (cannot_start h.meta.state) ∷ h.events
    → HasFailed rest g f
    → KeepsRuns f k
    → HasFailed (next ∷ rest) h k
failed_first next rest h g f k same events failed kept = record {
  state = kept.state ∙ failed.state ∙ same;
  active = kept.active ∙ failed.active;
  queue_empty = kept.queue ∙ failed.queue_empty;
  events =
      kept.events
      ∙ failed.events
      ∙ ap (λ s. failures s rest g.events) same
      ∙ ap (failures h.meta.state rest) events;
}

drain_queue-HasFailed :
    (queue : List AgentRun) (final : AgentRunState) (h : Host)
    → h.meta.queued_runs ≡ queue
    → is_state h.meta.state ready ≡ false
    → HasFailed queue h (drain_queue queue final h)
unfolding drain_queue start_run
drain_queue-HasFailed [] final h e other = ground (
  arith,
  record_activity-KeepsRuns (take_next final h),
  take_next-none final h e,
  take_next-kept final h,
)
drain_queue-HasFailed (next ∷ rest) final h e other =
    let taken = take_next-queue final h next rest e in
    let kept = take_next-kept final h in
    let (g, started, same, queue, events) =
      not_started (drain_queue rest) (start_run next) (take_next final h) (rw (kept.0) other) in
    rw (taken.1, started)
      (failed_first next rest h g _ _ (same ∙ kept.0)
        (events
          ∙ ap (λ s. Event.agent_run_failed next.id (cannot_start s) ∷ (take_next final h).events)
              (kept.0)
          ∙ ap (λ es. Event.agent_run_failed next.id (cannot_start h.meta.state) ∷ es) (kept.1))
        (drain_queue-HasFailed rest AgentRunState.failed g (queue ∙ taken.0)
          (rw (same, kept.0) other))
        (record_activity-KeepsRuns _))

-- When a run ends in a session that is not ready, no queued run begins: the session is left with
-- no active run and an empty queue, its state is what it was, and each queued run is told to have
-- failed, in the order of the queue, because of that state.
pub queue-HasFailed :
    (final : AgentRunState) (h : Host)
    → is_state h.meta.state ready ≡ false
    → HasFailed h.meta.queued_runs h (finish_run_and_drain_queue final h)
unfolding finish_run_and_drain_queue
queue-HasFailed final h other = drain_queue-HasFailed h.meta.queued_runs final h refl other

-- The run `run` has begun, in the phase that it asks for, with nothing left of the run before.
pub record HasBegun (run : AgentRun) (rest : List AgentRun) (g : Host) : Type 0 where
  pub phase : g.meta.state ≡ (if run.plan_first then planning else executing)
  pub active :
      g.meta.active_run
      ≡ some (record run {
        state = if run.plan_first then AgentRunState.thinking else AgentRunState.executing;
      })
  pub queue : g.meta.queued_runs ≡ rest
  pub prompt : g.meta.prompt ≡ run.text
  pub no_plan : g.meta.latest_plan ≡ none
  pub no_decision : g.meta.last_decision ≡ none
  pub no_round : g.meta.refinement_round ≡ 0
  pub no_attempt : g.meta.verification_attempts ≡ 0

start_with-HasBegun :
    (finish : Finish) (run : AgentRun) (h : Host)
    → h.meta.state ≡ ready
    → HasBegun run h.meta.queued_runs (start_with finish run h)
unfolding start_with reset_for begin_phase enter_phase begin_planning begin_executing announce
    set_active_run_state send_to_sandbox emit update_directory save_meta transition
    is_valid_transition
start_with-HasBegun finish run h r = ground arith

begun-kept :
    (run : AgentRun) (rest : List AgentRun) (g k : Host)
    → HasBegun run rest g
    → KeepsRuns g k
    → HasBegun run rest k
begun-kept run rest g k b kept = record {
  phase = kept.state ∙ b.phase;
  active = kept.active ∙ b.active;
  queue = kept.queue ∙ b.queue;
  prompt = kept.prompt ∙ b.prompt;
  no_plan = kept.plan ∙ b.no_plan;
  no_decision = kept.decision ∙ b.no_decision;
  no_round = kept.round ∙ b.no_round;
  no_attempt = kept.attempts ∙ b.no_attempt;
}

start_next-some :
    (h : Host) (run : AgentRun)
    → h.meta.active_run ≡ some run
    → start_next h ≡ start_with finish_run_and_drain_queue run h
unfolding start_agent_run start_with reset_for
start_next-some h run e = rw (e, start_next) refl

-- When a run ends in a ready session with queued runs, the first of them begins: it is the active
-- run, in the phase that it asks for, with its own prompt and without the plan, the decision, the
-- rounds or the attempts of the run before; the others stay queued in their order.
pub next_run-HasBegun :
    (final : AgentRunState) (h : Host) (next : AgentRun) (rest : List AgentRun)
    → h.meta.state ≡ ready
    → h.meta.queued_runs ≡ next ∷ rest
    → HasBegun (start_run next) rest (finish_run_and_drain_queue final h)
next_run-HasBegun final h next rest r e =
    let taken = take_next-queue final h next rest e in
    let begun =
      start_with-HasBegun finish_run_and_drain_queue (start_run next) (take_next final h)
        ((take_next-kept final h).0 ∙ r) in
    rw (finish_run_and_drain_queue_lem final h) (
      begun-kept (start_run next) rest _ _
        (rw (start_next-some (take_next final h) (start_run next) (taken.1)) (
          subst
            (λ q.
              HasBegun (start_run next) q
                (start_with finish_run_and_drain_queue (start_run next) (take_next final h)))
            (taken.0) begun))
        (record_activity-KeepsRuns _))
