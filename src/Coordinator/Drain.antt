-- ===== src/Coordinator/Drain.antt =====
-- The recursion on the queue and the mutual recursion of
-- packages/worker/src/orchestrator/agent-run-coordinator.ts.
use codevil.Base.{
  ◌≡◌, refl, true, List, [], ◌∷◌, Option, none, some, arith, inl, inr, Bool-cases, ap,
}
use codevil.Session.{ready, is_valid_transition, is_state, is_state→eq}
use codevil.Room.{AgentRun, AgentRunState}
use codevil.AgentRuns.{start_run, finish_active_agent_run}
use codevil.Host.{Host, transition, save_meta, emit, update_directory}
use codevil.Activity.{record_activity}
use codevil.Coordinator.{
  Finish, enter_phase, begin_phase, start_with, take_next, drain_queue, finish_run_and_drain_queue,
  start_agent_run, reset_for,
}

-- A ready session enters both phases, so that the start of a phase never finishes the run.
begin_phase-ready :
    (f g : Finish) (run : AgentRun) (h : Host)
    → is_state h.meta.state ready ≡ true
    → begin_phase f run h ≡ begin_phase g run h
unfolding begin_phase enter_phase transition is_valid_transition
begin_phase-ready f g run h r = ground (arith, is_state→eq h.meta.state ready)

-- The start of a run finishes it at once in the session's own queue.
start_with-drain_queue :
    (run : AgentRun) (h : Host)
    → start_with (drain_queue h.meta.queued_runs) run h ≡ start_agent_run run h
unfolding start_with start_agent_run finish_run_and_drain_queue save_meta reset_for emit
start_with-drain_queue run h = elim (Bool-cases (is_state h.meta.state ready)) [
  | inr other ↦ rw (other, start_with) refl
  | inl is_ready ↦
      rw (is_ready, start_with)
        (begin_phase-ready (drain_queue h.meta.queued_runs) finish_run_and_drain_queue run _
          is_ready)
]

abbrev pub start_next : Host → Host
start_next h = elim h.meta.active_run [ none ↦ h | some run ↦ start_agent_run run h ]

start_either :
    (h : Host) (rest : List AgentRun) (run : Option AgentRun)
    → h.meta.queued_runs ≡ rest
    → elim run [ none ↦ h | some r ↦ start_with (drain_queue rest) r h ]
      ≡ elim run [ none ↦ h | some r ↦ start_agent_run r h ]
start_either h rest none e = refl
start_either h rest (some r) e = rw (← e) (start_with-drain_queue r h)

pub take_next-queue :
    (final : AgentRunState) (h : Host) (next : AgentRun) (rest : List AgentRun)
    → h.meta.queued_runs ≡ next ∷ rest
    → ((take_next final h).meta.queued_runs ≡ rest)
      × ((take_next final h).meta.active_run ≡ some (start_run next))
unfolding take_next finish_active_agent_run save_meta update_directory
take_next-queue final h next rest e = ground arith

pub take_next-none :
    (final : AgentRunState) (h : Host)
    → h.meta.queued_runs ≡ []
    → ((take_next final h).meta.queued_runs ≡ []) × ((take_next final h).meta.active_run ≡ none)
unfolding take_next finish_active_agent_run save_meta update_directory
take_next-none final h e = ground arith

drain_queue_step :
    (final : AgentRunState) (h : Host) (queue : List AgentRun)
    → h.meta.queued_runs ≡ queue
    → drain_queue queue final h ≡ record_activity (start_next (take_next final h))
unfolding drain_queue
drain_queue_step final h [] e = rw ((take_next-none final h e).1) refl
drain_queue_step final h (next ∷ rest) e =
    ap record_activity
      (start_either (take_next final h) rest _ (take_next-queue final h next rest e).0)

-- Finishing a run takes the next one, starts it as `startAgentRun` does on its own, whose failure
-- finishes that run in turn, and restarts the idle-pause clock.
pub finish_run_and_drain_queue_lem :
    (final : AgentRunState) (h : Host)
    → finish_run_and_drain_queue final h ≡ record_activity (start_next (take_next final h))
unfolding finish_run_and_drain_queue
finish_run_and_drain_queue_lem final h = drain_queue_step final h h.meta.queued_runs refl
