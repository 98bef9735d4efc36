-- ===== src/Alarm/Deadlines.antt =====
-- The deadline of packages/worker/src/orchestrator/alarm.ts among those asked.
use codevil.Base.{
  ℕ, ◌+◌, ◌≤◌, ◌<◌, ◌≡◌, refl, Bool, true, false, List, [], ◌∷◌, Option, none, some, arith, ltb,
  keep, max, min, inl, inr, Option-cases, Bool-cases, if_cases, not, ◌++◌, any, ◌==◌, All, subst,
  sym, ◌⊎◌,
}
use codevil.Lifecycle.{sandbox_past_due_retry_ms}
use codevil.Session.{is_terminal_state}
use codevil.Connection.{sandbox_reconnect_deadline}
use codevil.Alarm.{due, AlarmScheduleInput, minimum, deadlines, live_deadlines, next_alarm_deadline}

-- What the next alarm is of the deadlines: none has come yet if there is no alarm, else the first
-- of those that lie ahead.
abbrev pub IsNext : ℕ → List ℕ → Option ℕ → Type 0
IsNext now ds none = All (λ d. d ≤ now) ds
IsNext now ds (some t) =
    (now < t) × (any (λ d. d == t) ds ≡ true) × All (λ d. (d ≤ now) ⊎ (t ≤ d)) ds

earlier :
    (now d m : ℕ) (ds : List ℕ)
    → All (λ x. (x ≤ now) ⊎ (m ≤ x)) ds
    → All (λ x. (x ≤ now) ⊎ (min d m ≤ x)) ds
earlier now d m [] a = tt
earlier now d m (x ∷ ds) a = (ground (arith, a.0), earlier now d m ds a.1)

only : (now d : ℕ) (ds : List ℕ) → All (λ x. x ≤ now) ds → All (λ x. (x ≤ now) ⊎ (d ≤ x)) ds
only now d [] a = tt
only now d (x ∷ ds) a = (inl a.0, only now d ds a.1)

abbrev least : ℕ → Option ℕ → Option ℕ
least d none = some d
least d (some m) = some (min d m)

ahead-IsNext :
    (now d : ℕ) (ds : List ℕ) (o : Option ℕ)
    → now < d
    → IsNext now ds o
    → IsNext now (d ∷ ds) (least d o)
ahead-IsNext now d ds none a n = (a, ground arith, (ground arith, only now d ds n))
ahead-IsNext now d ds (some m) a n =
    (ground (arith, n.0), ground (arith, n.1), (ground arith, earlier now d m ds n.2))

past-IsNext :
    (now d : ℕ) (ds : List ℕ) (o : Option ℕ) → d ≤ now → IsNext now ds o → IsNext now (d ∷ ds) o
past-IsNext now d ds none a n = (a, n)
past-IsNext now d ds (some m) a n = (n.0, ground (arith, n.1), (inl a, n.2))

least-minimum : (d : ℕ) (ds : List ℕ) → minimum (d ∷ ds) ≡ least d (minimum ds)
unfolding minimum
least-minimum d ds =
    elim (minimum ds) as (λ o. elim o [ none ↦ some d | some m ↦ some (min d m) ] ≡ least d o) [
      | none ↦ refl
      | some m ↦ refl
    ]

keep-IsNext :
    (now d : ℕ) (ds rest : List ℕ) (b : Bool)
    → ltb now d ≡ b
    → IsNext now ds (minimum rest)
    → IsNext now (d ∷ ds) (minimum (elim b [ true ↦ d ∷ rest | false ↦ rest ]))
keep-IsNext now d ds rest true e n =
    subst (IsNext now (d ∷ ds)) (sym (least-minimum d rest))
      (ahead-IsNext now d ds _ (ground arith) n)
keep-IsNext now d ds rest false e n = past-IsNext now d ds _ (ground arith) n

minimum-IsNext : (now : ℕ) (ds : List ℕ) → IsNext now ds (minimum (keep (λ d. ltb now d) ds))
unfolding minimum
minimum-IsNext now [] = tt
minimum-IsNext now (d ∷ ds) = keep-IsNext now d ds _ _ refl (minimum-IsNext now ds)

ahead_of_clock :
    (input : AlarmScheduleInput) → IsNext input.now (deadlines input) (next_alarm_deadline input)
unfolding next_alarm_deadline
ahead_of_clock input = minimum-IsNext input.now (deadlines input)

-- What a session waits for. One that has not ended has its first minute, its time limit, the end of
-- the grace in which its sandbox may reconnect, its idle pause and the renewal of its lease; any has
-- the retries of its card and of its workspace cache. A pause or a renewal that is due is tried again
-- in thirty seconds, a retry of the cache at once.
pub data IsDeadline (input : AlarmScheduleInput) : ℕ → Type 0 where
  first_minute :
      is_terminal_state input.state ≡ false → IsDeadline input (input.created_at + 60_000)
  time_limit :
      (limit : ℕ)
      → is_terminal_state input.state ≡ false
      → input.max_time_ms ≡ some limit
      → IsDeadline input (input.created_at + limit)
  reconnect_grace :
      (lost_at : ℕ)
      → is_terminal_state input.state ≡ false
      → input.sandbox_disconnected_at ≡ some lost_at
      → IsDeadline input (lost_at + 60_000)
  idle_pause :
      (due_at : ℕ)
      → is_terminal_state input.state ≡ false
      → input.idle_pause_at ≡ some due_at
      → IsDeadline input (max due_at (input.now + 30_000))
  lease_renewal :
      (due_at : ℕ)
      → is_terminal_state input.state ≡ false
      → input.lease_renew_at ≡ some due_at
      → IsDeadline input (max due_at (input.now + 30_000))
  card_retry : (at : ℕ) → input.presentation_retry_at ≡ some at → IsDeadline input at
  cache_retry :
      (at : ℕ)
      → input.workspace_cache_retry_at ≡ some at
      → IsDeadline input (max at (input.now + 1))

append-All : (P : ℕ → Type 0) (xs ys : List ℕ) → All P xs → All P ys → All P (xs ++ ys)
append-All P [] ys a b = b
append-All P (x ∷ xs) ys a b = (a.0, append-All P xs ys a.1 b)

due-All :
    (P : ℕ → Type 0) (o : Option ℕ) (f : ℕ → ℕ) → ((t : ℕ) → o ≡ some t → P (f t)) → All P (due o f)
due-All P none f p = tt
due-All P (some t) f p = (p t refl, tt)

-- Each deadline of the source is one of these, and each of these is one of the source.
live_deadlines-IsDeadline :
    (input : AlarmScheduleInput)
    → is_terminal_state input.state ≡ false
    → All (IsDeadline input) (live_deadlines input)
unfolding live_deadlines sandbox_reconnect_deadline
live_deadlines-IsDeadline input live = (
  first_minute live,
  append-All _ _ _ (due-All _ input.max_time_ms _ (λ t e. time_limit t live e)) (
      append-All _ _ _ (due-All _ input.sandbox_disconnected_at _ (λ t e. reconnect_grace t live e))
        (append-All _ _ _ (due-All _ input.idle_pause_at _ (λ t e. idle_pause t live e))
          (due-All _ input.lease_renew_at _ (λ t e. lease_renewal t live e)))),
)

deadlines-IsDeadline : (input : AlarmScheduleInput) → All (IsDeadline input) (deadlines input)
unfolding deadlines
deadlines-IsDeadline input =
    append-All _ _ _
      (if_cases (All (IsDeadline input)) (not (is_terminal_state input.state))
        (λ e. live_deadlines-IsDeadline input (ground (arith, e))) (λ _. tt))
      (append-All _ _ _ (due-All _ input.presentation_retry_at _ (λ t e. card_retry t e))
        (due-All _ input.workspace_cache_retry_at _ (λ t e. cache_retry t e)))

has_deadline :
    (input : AlarmScheduleInput) (d : ℕ)
    → IsDeadline input d
    → any (λ x. x == d) (deadlines input) ≡ true
unfolding deadlines live_deadlines sandbox_reconnect_deadline
has_deadline input _ (first_minute live) = ground (arith, live)
has_deadline input _ (time_limit limit live e) = ground (arith, live, e)
has_deadline input _ (reconnect_grace lost_at live e) = ground (arith, live, e)
has_deadline input _ (idle_pause due_at live e) = ground (arith, live, e)
has_deadline input _ (lease_renewal due_at live e) = ground (arith, live, e)
has_deadline input _ (card_retry at e) = ground (arith, e)
has_deadline input _ (cache_retry at e) = ground (arith, e)

all_found : (P : ℕ → Type 0) (d : ℕ) (xs : List ℕ) → All P xs → any (λ x. x == d) xs ≡ true → P d
all_found P d [] a f = absurd (ground (arith, f))
all_found P d (x ∷ xs) a f = elim (Bool-cases (x == d)) [
  | inl e ↦ subst P (ground (arith, e)) a.0
  | inr e ↦ all_found P d xs a.1 (ground (arith, e, f))
]

-- The first of the deadlines that lie ahead, if there is one.
abbrev pub IsFirst : AlarmScheduleInput → Option ℕ → Type 0
IsFirst input none = (d : ℕ) → IsDeadline input d → d ≤ input.now
IsFirst input (some t) =
    IsDeadline input t
    × (input.now < t)
    × ((d : ℕ) → IsDeadline input d → (d ≤ input.now) ⊎ (t ≤ d))

ahead-IsFirst :
    (input : AlarmScheduleInput) (o : Option ℕ)
    → IsNext input.now (deadlines input) o
    → IsFirst input o
ahead-IsFirst input none n = λ d i. all_found _ d (deadlines input) n (has_deadline input d i)
ahead-IsFirst input (some t) n = (
  all_found _ t (deadlines input) (deadlines-IsDeadline input) n.1,
  n.0,
  λ d i. all_found _ d (deadlines input) n.2 (has_deadline input d i),
)

-- The alarm is set for the first of the session's deadlines that lies ahead of the clock, whatever
-- passed ones there are beside it; there is none only if every deadline has passed. The deadlines of a
-- session that has not ended are its first minute, its time limit, the reconnect grace of a minute,
-- and its idle pause and lease renewal, in thirty seconds at the earliest; those of any session are
-- the retries of its card and of its workspace cache, the latter ahead of the clock.
pub next_alarm_deadline-IsFirst :
    (input : AlarmScheduleInput) → IsFirst input (next_alarm_deadline input)
next_alarm_deadline-IsFirst input = ahead-IsFirst input _ (ahead_of_clock input)

-- In a session that has not ended, an idle pause that is due, even for long, is tried again: the
-- next alarm is ahead, and at the time of the pause or thirty seconds from now at the latest.
pub idle_pause-retried :
    (input : AlarmScheduleInput) (due_at : ℕ)
    → is_terminal_state input.state ≡ false
    → input.idle_pause_at ≡ some due_at
    → (t : ℕ) × (next_alarm_deadline input ≡ some t)
      × (input.now < t)
      × (t ≤ max due_at (input.now + sandbox_past_due_retry_ms))
unfolding deadlines live_deadlines
idle_pause-retried input due_at live idle = elim (Option-cases (next_alarm_deadline input)) [
  | inl e ↦ absurd (ground (arith, subst (IsNext input.now _) e (ahead_of_clock input)))
  | inr (t, e) ↦
      let next = subst (IsNext input.now _) e (ahead_of_clock input) in
      (t, e, next.0, ground (arith, next.2))
]
