-- ===== src/AgentRuns.antt =====
-- packages/worker/src/agent-runs.ts: the queue of agent runs, of which one at most is active.
pub mod Fifo
use codevil.Base.{
  ℕ, Bool, true, false, ◌&&◌, not, String, List, [], ◌∷◌, ◌++◌, Option, none, some, length, is_some,
  if◌then◌else◌,
}
use codevil.Text.{trim}
use codevil.Room.{ParticipantIdentity, AgentRun, queued, thinking}

pub record AgentRunQueueState : Type 0 where
  pub active : Option AgentRun
  pub queue : List AgentRun

pub record QueuedRun : Type 0 where
  pub run : AgentRun
  pub position : ℕ

pub record AgentRunQueueResult : Type 0 where
  pub active : Option AgentRun
  pub queue : List AgentRun
  pub started : Option AgentRun
  pub queued : Option QueuedRun

-- `id` is the generated identifier, `run_` and a random UUID.
unfoldable pub create_agent_run : ParticipantIdentity → String → ℕ → String → Bool → AgentRun
create_agent_run actor text now id plan_first = record {
  id = id;
  actor = actor;
  text = trim text;
  plan_first = plan_first;
  state = queued;
  created_at = now;
}

unfoldable pub start_run : AgentRun → AgentRun
start_run run = record run { state = thinking }

-- The run joins the end of the queue.
wait_in_queue : AgentRunQueueState → AgentRun → AgentRunQueueResult
wait_in_queue s run =
    let queue = s.queue ++ run ∷ [] in
    record {
      active = s.active;
      queue = queue;
      started = none;
      queued = some (record { run = run; position = length queue });
    }

unfoldable pub enqueue_agent_run : AgentRunQueueState → AgentRun → Bool → AgentRunQueueResult
unfolding start_run wait_in_queue
enqueue_agent_run s run session_ready =
    if not (is_some s.active) && not session_ready
    then wait_in_queue s run
    else if not (is_some s.active)
    then start_at_once
    else wait_in_queue s run
  where
    start_at_once : AgentRunQueueResult
    start_at_once = record {
      active = some (start_run run);
      queue = s.queue;
      started = some (start_run run);
      queued = none;
    }

unfoldable pub finish_active_agent_run : AgentRunQueueState → AgentRunQueueResult
unfolding start_run
finish_active_agent_run s = elim s.queue [
  | [] ↦ record { active = none; queue = []; started = none; queued = none }
  | next ∷ queue ↦ record {
    active = some (start_run next);
    queue = queue;
    started = some (start_run next);
    queued = none;
  }
]
