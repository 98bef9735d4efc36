-- ===== src/Consistency.antt =====
-- The invariant of a session between two handlers.
pub mod Steps
use codevil.Base.{ℕ, ◌≤◌, ◌≡◌, Option, none, some}
use codevil.Session.{
  SessionState, initializing, provisioning_sandbox, cloning_repo, ready, planning,
  awaiting_approval, refining, executing, verifying, retrying, creating_pr, completed, failed,
  timed_out, max_refinement_rounds,
}
use codevil.Room.{AgentRun, AgentRunState}
use codevil.Host.{Host}

abbrev pub IsIdle : Option AgentRun → Type 0
IsIdle none = Unit {0}
IsIdle (some run) = ⊥

abbrev pub RunsAs : AgentRunState → Option AgentRun → Type 0
RunsAs state none = ⊥
RunsAs state (some run) = run.state ≡ state

-- Which active run goes with a state of the session; a session that has ended keeps what it had.
abbrev pub RunMatches : SessionState → Option AgentRun → Type 0
RunMatches initializing run = IsIdle run
RunMatches provisioning_sandbox run = IsIdle run
RunMatches cloning_repo run = IsIdle run
RunMatches ready run = IsIdle run
RunMatches planning run = RunsAs AgentRunState.thinking run
RunMatches awaiting_approval run = RunsAs AgentRunState.awaiting_approval run
RunMatches refining run = RunsAs AgentRunState.thinking run
RunMatches executing run = RunsAs AgentRunState.executing run
RunMatches verifying run = RunsAs AgentRunState.verifying run
RunMatches retrying run = RunsAs AgentRunState.executing run
RunMatches creating_pr run = RunsAs AgentRunState.publishing run
RunMatches completed run = Unit {0}
RunMatches failed run = Unit {0}
RunMatches timed_out run = Unit {0}

-- The row of the meta is up to date, the rounds of refinement are bounded, and the active run's
-- state is the one that the session's state calls for.
pub record IsConsistent (h : Host) : Type 0 where
  pub durable : h.saved ≡ h.meta
  pub bounded : h.meta.refinement_round ≤ max_refinement_rounds
  pub matched : RunMatches h.meta.state h.meta.active_run
