-- ===== src/Room.antt =====
-- packages/shared/src/room.ts: participants, agent runs and the states that the directory shows.
use codevil.Base.{ℕ, Bool, String}

pub record ParticipantIdentity : Type 0 where
  pub id : String
  pub name : String

pub data AgentRunState : Type 0 where
  queued thinking awaiting_approval executing verifying publishing : AgentRunState
  completed failed cancelled : AgentRunState

-- `created_at` is the time that the source writes as an ISO text.
pub record AgentRun : Type 0 where
  pub id : String
  pub actor : ParticipantIdentity
  pub text : String
  pub plan_first : Bool
  pub state : AgentRunState
  pub created_at : ℕ

pub data RoomState : Type 0 where
  initializing ready failed archived : RoomState

pub data SandboxState : Type 0 where
  not_started provisioning cloning ready stopping stopped paused timed_out failed : SandboxState
