-- ===== src/AgentRuns/Fifo.antt =====
-- The order of the queue of packages/worker/src/agent-runs.ts.
use codevil.Base.{
  ℕ, zero, suc, ◌≡◌, refl, false, List, [], ◌∷◌, ◌++◌, map, Option, none, some, length, ap, sym,
}
use mathlib.Core.List.{append-nil}
use codevil.Room.{AgentRun}
use codevil.AgentRuns.{
  AgentRunQueueState, AgentRunQueueResult, enqueue_agent_run, finish_active_agent_run, start_run,
}

-- The state that a result leaves.
abbrev pub state_of : AgentRunQueueResult → AgentRunQueueState
state_of r = record { active = r.active; queue = r.queue }

-- Requests that arrive while the session is not ready, one after the other.
abbrev pub enqueue_all : AgentRunQueueState → List AgentRun → AgentRunQueueState
enqueue_all s [] = s
enqueue_all s (run ∷ runs) = enqueue_all (state_of (enqueue_agent_run s run false)) runs

-- The runs that become active as the active one is finished `n` times.
abbrev pub finish_times : ℕ → AgentRunQueueState → List AgentRun
finish_times zero s = []
finish_times (suc n) s =
    let next = finish_active_agent_run s in
    let later = finish_times n (state_of next) in
    elim next.started [ none ↦ later | some run ↦ run ∷ later ]

append_last :
    (queue : List AgentRun) (run : AgentRun) (runs : List AgentRun)
    → (queue ++ run ∷ []) ++ runs ≡ queue ++ run ∷ runs
append_last [] run runs = refl
append_last (r ∷ rs) run runs = ap (λ l. r ∷ l) (append_last rs run runs)

queued_in_order :
    (active : Option AgentRun) (queue runs : List AgentRun)
    → enqueue_all (record { active = active; queue = queue }) runs
      ≡ record { active = active; queue = queue ++ runs }
unfolding enqueue_agent_run
queued_in_order active queue [] =
    ap (λ q. record { active = active; queue = q }) (sym (append-nil queue))
queued_in_order none queue (run ∷ runs) =
    rw (← append_last queue run runs) (queued_in_order none (queue ++ run ∷ []) runs)
queued_in_order (some a) queue (run ∷ runs) =
    rw (← append_last queue run runs) (queued_in_order (some a) (queue ++ run ∷ []) runs)

started_in_order :
    (active : Option AgentRun) (queue : List AgentRun)
    → finish_times (length queue) (record { active = active; queue = queue }) ≡ map start_run queue
unfolding finish_active_agent_run
started_in_order active [] = refl
started_in_order active (run ∷ queue) =
    ap (λ l. start_run run ∷ l) (started_in_order (some (start_run run)) queue)

-- Runs requested while none can start are queued behind those that wait already, and as active
-- runs are finished they become active in exactly that order, each of them once, as `thinking`.
pub enqueue-finish_fifo :
    (active : Option AgentRun) (queue runs : List AgentRun)
    → finish_times
        (length (queue ++ runs))
        (enqueue_all (record { active = active; queue = queue }) runs)
      ≡ map start_run (queue ++ runs)
enqueue-finish_fifo active queue runs =
    rw (queued_in_order active queue runs) (started_in_order active (queue ++ runs))
