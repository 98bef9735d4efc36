-- ===== src/Examples.antt =====
-- Concrete sessions, runs and questions on which the definitions are run.
use codevil.Base.{true, false, String, List, [], ◌∷◌, Option, none, some}
use codevil.Session.{SessionState, ready, awaiting_approval, executing, retrying}
use codevil.Room.{ParticipantIdentity, AgentRun, AgentRunState}
use codevil.Connection.{SandboxSocket}
use codevil.Host.{
  Host, SessionMeta, QuestionRow, anyone, open_question, PlanRevision, start, no_patch, CostInfo,
}

abbrev pub alice : ParticipantIdentity
alice = record { id = "usr_alice"; name = "Alice" }

abbrev pub bob : ParticipantIdentity
bob = record { id = "usr_bob"; name = "Bob" }

abbrev pub run_in : String → AgentRunState → AgentRun
run_in id state = record {
  id = id;
  actor = alice;
  text = "Fix the login page";
  plan_first = false;
  state = state;
  created_at = 1_000;
}

abbrev pub first_run : AgentRun
first_run = run_in "run_1" AgentRunState.queued

abbrev pub second_run : AgentRun
second_run = run_in "run_2" AgentRunState.queued

abbrev pub meta_in : SessionState → Option AgentRun → List AgentRun → SessionMeta
meta_in state run queue = record {
  session_id = "ses_1";
  prompt = "Fix the login page";
  repo = "acme/site";
  worker_url = "https://codevil.example";
  provider = "anthropic";
  plan_model = "plan";
  exec_model = "exec";
  max_time = "1h";
  max_time_ms = some 3_600_000;
  state = state;
  refinement_round = 1;
  verification_attempts = 0;
  cost_total_usd = 0;
  latest_plan = some "1. Fix it.";
  active_run = run;
  queued_runs = queue;
  created_by = some alice;
  preview_token_hash = none;
  preview_url = none;
  preview_port = none;
  preview_active = false;
  created_at = 0;
  expected_close = false;
  sandbox_disconnected_at = none;
  sandbox_ref = some "sbx_1";
  max_idle_ms = some 600_000;
  last_activity_at = some 5_000;
  sandbox_paused_at = none;
  sandbox_lease_renewed_at = none;
  pending_preview_action = some (record { action_type = start; app_key = none });
  last_decision = none;
}

abbrev pub live_socket : SandboxSocket
live_socket = record { id = 1; ready_state = some 1; has_attachment = true; closing = false }

abbrev pub open_one : QuestionRow
open_one = record {
  request_id = "q_1";
  run_id = "run_1";
  round = 1;
  question = "Which database?";
  context = none;
  options = record { id = "pg"; label = "Postgres" } ∷ record { id = "my"; label = "MySQL" } ∷ [];
  answerable_by = anyone;
  allow_freeform = false;
  allow_multiple = false;
  status = open_question;
  answer = none;
  answered_by = none;
  answered_at = none;
  assigned_to = none;
  cancelled_reason = none;
  created_at = 4_000;
}

abbrev pub plan : PlanRevision
plan = record {
  run_id = "run_1";
  round = 1;
  markdown = "1. Fix it.";
  locked_at = none;
  frozen_at = 4_500;
}

abbrev pub host_of : SessionMeta → Host
host_of m = record {
  meta = m;
  saved = m;
  now = 10_000;
  events = [];
  sent = [];
  sockets = live_socket ∷ [];
  questions = open_one ∷ [];
  revisions = plan ∷ [];
  annotations = [];
  replies = [];
  directory = no_patch;
  alarm = none;
  pausing = false;
  resuming = false;
  resume_requested = false;
  capabilities = record { pause_resume = true; lease_renewal = true; workspace_cache = false };
  presentation_retry_at = none;
  workspace_cache_job = none;
}

-- A plan waits for approval, and a second run is queued.
abbrev pub waiting : Host
waiting = host_of (
    meta_in awaiting_approval (some (run_in "run_1" AgentRunState.awaiting_approval))
      (second_run ∷ []))

abbrev pub executing_host : Host
executing_host =
    host_of (meta_in executing (some (run_in "run_1" AgentRunState.executing)) (second_run ∷ []))

-- Ready, with a run that has ended and one that waits.
abbrev pub between : Host
between = host_of (meta_in ready (some first_run) (second_run ∷ []))

abbrev pub retrying_host : Host
retrying_host = host_of (meta_in retrying (some (run_in "run_1" AgentRunState.executing)) [])

abbrev pub cost : CostInfo
cost = record { input_tokens = 10; output_tokens = 2; total_cost_usd = 3 }
