-- ===== src/Lifecycle.antt =====
-- packages/worker/src/orchestrator/sandbox-lifecycle.ts: when an idle sandbox is paused and for
-- how long a provider's lease is asked. Times and durations are milliseconds; a text with an ISO
-- time stands as the time that it parses to.
pub mod Bounds
use codevil.Base.{
  ℕ, ◌+◌, ◌-◌, ◌*◌, min, max, Bool, true, false, not, ◌&&◌, ◌||◌, Option, none, some, is_some, leb,
  ◌==◌, if◌then◌else◌, get_or_else,
}
use codevil.Session.{SessionState, ready, is_state}

abbrev pub sandbox_lease_renew_interval_ms : ℕ
sandbox_lease_renew_interval_ms = 5 * 60_000

abbrev pub sandbox_past_due_retry_ms : ℕ
sandbox_past_due_retry_ms = 30_000

abbrev pub min_sandbox_lease_ms : ℕ
min_sandbox_lease_ms = 60_000

-- `now` is `none` for the infinite time that passes every deadline.
pub record IdlePauseInput : Type 0 where
  pub now : Option ℕ
  pub pause_supported : Bool
  pub session_state : SessionState
  pub paused : Bool
  pub sandbox_connected : Bool
  pub disconnected_at : Option ℕ
  pub has_active_run : Bool
  pub queued_runs : ℕ
  pub open_questions : ℕ
  pub last_activity_at : ℕ
  pub max_idle_ms : Option ℕ

unfoldable pub idle_pause_deadline : ℕ → Option ℕ → Option ℕ
idle_pause_deadline last_activity_at none = none
idle_pause_deadline last_activity_at (some max_idle_ms) = some (last_activity_at + max_idle_ms)

-- `now >= deadline`.
abbrev pub has_come : Option ℕ → ℕ → Bool
has_come none deadline = true
has_come (some now) deadline = leb deadline now

unfoldable pub should_pause_sandbox : IdlePauseInput → Bool
unfolding idle_pause_deadline
should_pause_sandbox input =
    if not input.pause_supported
      || input.paused
      || not (is_state input.session_state ready)
      || not input.sandbox_connected
      || is_some input.disconnected_at
      || input.has_active_run
      || not (input.queued_runs == 0)
      || not (input.open_questions == 0)
    then false
    else elim (idle_pause_deadline input.last_activity_at input.max_idle_ms) [
      | none ↦ false
      | some deadline ↦ has_come input.now deadline
    ]

-- A negative remainder is below the least lease, as a remainder cut off at 0 is.
unfoldable pub sandbox_lease_ms : ℕ → ℕ → Option ℕ → ℕ → ℕ
sandbox_lease_ms now created_at max_time_ms provider_max_ms = min provider_max_ms remaining_ms
  where
    remaining_ms : ℕ
    remaining_ms = elim max_time_ms [
      | none ↦ provider_max_ms
      | some limit ↦ max min_sandbox_lease_ms (created_at + limit - now)
    ]

unfoldable pub lease_renew_deadline : Option ℕ → ℕ → ℕ
lease_renew_deadline renewed_at created_at =
    get_or_else renewed_at created_at + sandbox_lease_renew_interval_ms
