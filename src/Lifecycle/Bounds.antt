-- ===== src/Lifecycle/Bounds.antt =====
-- Leases and idle pauses of packages/worker/src/orchestrator/sandbox-lifecycle.ts.
use codevil.Base.{ℕ, ◌+◌, ◌≤◌, ◌≡◌, ◌↔◌, true, false, Option, none, some, arith, min}
use codevil.Session.{ready}
use codevil.Lifecycle.{
  IdlePauseInput, should_pause_sandbox, idle_pause_deadline, sandbox_lease_ms, min_sandbox_lease_ms,
}

-- A lease is no longer than the provider allows; it is at least a minute where the provider allows
-- that; and with a minute left of the session's time, it does not outlive the session.
pub sandbox_lease-bounds :
    (now created_at provider_max : ℕ) (limit : Option ℕ)
    → let lease = sandbox_lease_ms now created_at limit provider_max in
      (lease ≤ provider_max)
      × (min provider_max min_sandbox_lease_ms ≤ lease)
      × ((max_time : ℕ)
          → limit ≡ some max_time
          → now + min_sandbox_lease_ms ≤ created_at + max_time
          → now + lease ≤ created_at + max_time)
unfolding sandbox_lease_ms
sandbox_lease-bounds now created_at provider_max limit = ground arith

-- What lets a sandbox be paused, in words of its state.
pub record IsIdleSandbox (input : IdlePauseInput) : Type 0 where
  pub supported : input.pause_supported ≡ true
  pub running : input.paused ≡ false
  pub in_ready : input.session_state ≡ ready
  pub connected : input.sandbox_connected ≡ true
  pub not_lost : input.disconnected_at ≡ none
  pub no_run : input.has_active_run ≡ false
  pub no_queue : input.queued_runs ≡ 0
  pub no_question : input.open_questions ≡ 0

-- The idle time is limited, and has passed at a time, which may be infinite.
abbrev pub HasIdled : ℕ → Option ℕ → Option ℕ → Type 0
HasIdled last_activity_at none now = ⊥
HasIdled last_activity_at (some max_idle_ms) none = Unit
HasIdled last_activity_at (some max_idle_ms) (some now) = last_activity_at + max_idle_ms ≤ now

-- A sandbox is paused exactly if it can be paused, is not paused yet, its session is ready, its socket
-- is attached and not lost, no run is active or queued, no question is open, the idle time is limited,
-- and it has passed since the last activity.
pub should_pause_iff :
    (input : IdlePauseInput)
    → (should_pause_sandbox input ≡ true)
      ↔ (IsIdleSandbox input × HasIdled input.last_activity_at input.max_idle_ms input.now)
unfolding should_pause_sandbox idle_pause_deadline
should_pause_iff input = ground arith
