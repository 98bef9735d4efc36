-- ===== src/Alarm.antt =====
-- packages/worker/src/orchestrator/alarm.ts: the next time at which the session's alarm fires.
pub mod Deadlines
use codevil.Base.{
  ℕ, ◌+◌, min, max, Bool, true, false, not, List, [], ◌∷◌, ◌++◌, Option, none, some, ltb, keep,
  if◌then◌else◌, map,
}
use codevil.Session.{SessionState, is_terminal_state}
use codevil.Connection.{sandbox_reconnect_deadline}
use codevil.Lifecycle.{sandbox_past_due_retry_ms}

pub record AlarmScheduleInput : Type 0 where
  pub now : ℕ
  pub state : SessionState
  pub created_at : ℕ
  pub max_time_ms : Option ℕ
  pub sandbox_disconnected_at : Option ℕ
  pub presentation_retry_at : Option ℕ
  pub workspace_cache_retry_at : Option ℕ
  pub idle_pause_at : Option ℕ
  pub lease_renew_at : Option ℕ

-- The deadline that `f` makes of a time, if there is one.
abbrev pub due : Option ℕ → (ℕ → ℕ) → List ℕ
due none f = []
due (some t) f = f t ∷ []

-- Each list is what the source pushes, in its order.
unfoldable pub live_deadlines : AlarmScheduleInput → List ℕ
unfolding sandbox_reconnect_deadline
live_deadlines input =
    (input.created_at + 60_000)
    ∷ (due input.max_time_ms (λ limit. input.created_at + limit)
        ++ (due input.sandbox_disconnected_at sandbox_reconnect_deadline
            ++ (due input.idle_pause_at clamped ++ due input.lease_renew_at clamped)))
  where
    clamped : ℕ → ℕ
    clamped due_at = max due_at (input.now + sandbox_past_due_retry_ms)

unfoldable pub deadlines : AlarmScheduleInput → List ℕ
unfolding live_deadlines is_terminal_state
deadlines input =
    (if not (is_terminal_state input.state) then live_deadlines input else [])
    ++ (due input.presentation_retry_at (λ t. t)
        ++ due input.workspace_cache_retry_at (λ t. max t (input.now + 1)))

-- `Math.min` of nothing is infinite, here `none`.
unfoldable pub minimum : List ℕ → Option ℕ
minimum [] = none
minimum (d ∷ ds) = elim (minimum ds) [ none ↦ some d | some m ↦ some (min d m) ]

unfoldable pub next_alarm_deadline : AlarmScheduleInput → Option ℕ
unfolding deadlines minimum
next_alarm_deadline input = minimum (keep (λ d. ltb input.now d) (deadlines input))
