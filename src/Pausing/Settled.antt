-- ===== src/Pausing/Settled.antt =====
-- What a session is like after the provider has answered
-- (packages/worker/src/orchestrator/sandbox-session-lifecycle.ts).
use codevil.Base.{
  ℕ, zero, suc, ◌-◌, ◌<◌, ◌≡◌, refl, ◌∙◌, ap, Bool, true, false, not, ◌||◌, String, [], none, some,
  is_some, is_empty, arith, inl, inr, Bool-cases, if_rule, All, if◌then◌else◌,
}
use codevil.Session.{failed, is_terminal_state}
use codevil.Connection.{live_sandbox_sockets}
use codevil.Connection.Laws.{close_sandbox_sockets-none_live, IsObservable}
use codevil.Host.{Host, save_meta, emit, update_directory, request_sandbox_resume}
use codevil.Activity.{arm_next_alarm}
use codevil.CliHandlers.{drain_queued_agent_work_if_ready}
use codevil.Coordinator.Frame.{
  KeepsSandbox, KeepsSandbox-refl, KeepsSandbox-trans, arm_next_alarm-KeepsSandbox,
  finish_run_and_drain_queue-KeepsSandbox,
}
use codevil.Preview.Replay.{flush-KeepsSandbox}
use codevil.Teardown.{fail_session, terminate_sandbox}
use codevil.Teardown.Outstanding.{HasEnded, fail_session-HasEnded}
use codevil.Pausing.{
  fail_lost_sandbox, release_work, PauseOutcome, pause_done, pause_lost, pause_failed, mark_paused,
  keep_sandbox, settle_pause, start_reconnect_grace, recover_after_failed_pause, end_pause,
  complete_resume, mark_resumed, fail_sandbox_resume, ResumeOutcome, resume_done, resume_lost,
  resume_failed, settle_attempt, goes_on, try_resume, has_sandbox_ref, resume_sandbox,
  resume_attempts,
}

-- The session is not marked as paused, or it has ended.
abbrev pub is_settled : Host → Bool
is_settled h = not (is_some h.meta.sandbox_paused_at) || is_terminal_state h.meta.state

pub drain-KeepsSandbox : (h : Host) → KeepsSandbox h (drain_queued_agent_work_if_ready h)
unfolding drain_queued_agent_work_if_ready
drain-KeepsSandbox h =
    if_rule (KeepsSandbox h) _ (finish_run_and_drain_queue-KeepsSandbox _ h) (KeepsSandbox-refl h)

pub release_work-KeepsSandbox : (h : Host) → KeepsSandbox h (release_work h)
unfolding release_work
release_work-KeepsSandbox h =
    KeepsSandbox-trans (drain-KeepsSandbox h)
      (KeepsSandbox-trans (flush-KeepsSandbox _) (arm_next_alarm-KeepsSandbox _ _))

settled_if_awake : (h : Host) → h.meta.sandbox_paused_at ≡ none → is_settled h ≡ true
settled_if_awake h e = ground (arith, e)

-- What holds after a session has been made to fail and what is done then.
pub after_failing :
    (P : Host → Type 0) (message reason : String) (h : Host) (k : Host → Host)
    → (is_terminal_state h.meta.state ≡ true → P h)
    → ((g : Host) → HasEnded message h g → P (k g))
    → let (g, ended) = fail_session message reason h in P (if ended then k g else g)
after_failing P message reason h k over fails = elim (Bool-cases (is_terminal_state h.meta.state)) [
  | inl e ↦ rw ((fail_session-HasEnded message reason h).0 e) (over e)
  | inr e ↦
      let (ended, told) = (fail_session-HasEnded message reason h).1 e in rw told (fails _ ended)
]

fail_lost-settled : (h : Host) → is_settled (fail_lost_sandbox h) ≡ true
unfolding fail_lost_sandbox
fail_lost-settled h =
    after_failing (λ g. is_settled g ≡ true) "Sandbox expired." "sandbox expired" h
      (arm_next_alarm (h.now - 1)) (λ over. ground (arith, over))
      (λ g ended.
        settled_if_awake (arm_next_alarm (h.now - 1) g)
          ((arm_next_alarm-KeepsSandbox (h.now - 1) g).paused_at ∙ ended.awake))

fail_resume-settled : (h : Host) → is_settled (fail_sandbox_resume h) ≡ true
unfolding fail_sandbox_resume terminate_sandbox save_meta
fail_resume-settled h =
    after_failing (λ g. is_settled g ≡ true) "Sandbox failed to resume." "sandbox failed to resume"
      h (λ g. arm_next_alarm (h.now - 1) (terminate_sandbox g)) (λ over. ground (arith, over))
      (λ g ended.
        settled_if_awake (arm_next_alarm (h.now - 1) (terminate_sandbox g))
          ((arm_next_alarm-KeepsSandbox (h.now - 1) (terminate_sandbox g)).paused_at))

complete_resume-settled : (now : ℕ) (h : Host) → is_settled (complete_resume now h) ≡ true
unfolding complete_resume mark_resumed save_meta emit update_directory
complete_resume-settled now h = elim (Bool-cases (is_settled h)) [
  | inl e ↦ rw (e, complete_resume) e
  | inr e ↦
      rw (e, complete_resume)
        (settled_if_awake (release_work (mark_resumed now h))
          ((release_work-KeepsSandbox (mark_resumed now h)).paused_at ∙ awake))
]
  where
    awake : (mark_resumed now h).meta.sandbox_paused_at ≡ none
    awake = refl

settle_attempt-settled :
    (o : ResumeOutcome) (now : ℕ) (h : Host)
    → goes_on o ≡ false
    → is_settled (settle_attempt o now h) ≡ true
unfolding settle_attempt
settle_attempt-settled resume_done now h g = complete_resume-settled now h
settle_attempt-settled resume_lost now h g = fail_lost-settled h
settle_attempt-settled resume_failed now h g = absurd (ground (arith, g))

try_resume-settled :
    (waiting calling : ℕ → Host → Host) (outcome : ℕ → ResumeOutcome) (left : ℕ) (h : Host)
    → is_settled (try_resume waiting calling outcome left h) ≡ true
unfolding try_resume
try_resume-settled waiting calling outcome zero h = fail_resume-settled h
try_resume-settled waiting calling outcome (suc left) h =
    elim (Bool-cases (is_settled (waiting left h))) [
      | inl e ↦ rw (e, try_resume) e
      | inr e ↦
          rw (e, try_resume)
            (elim (Bool-cases (goes_on (outcome left))) [
              | inl g ↦ rw (g, try_resume) (try_resume-settled waiting calling outcome left _)
              | inr g ↦
                  rw (g, try_resume)
                    (settle_attempt-settled (outcome left) (waiting left h).now
                      (calling left (waiting left h)) g)
            ])
    ]

-- Attempts that are not made are not asked about.
try_resume-attempts :
    (waiting calling : ℕ → Host → Host) (outcome other : ℕ → ResumeOutcome) (left : ℕ) (h : Host)
    → ((n : ℕ) → n < left → outcome n ≡ other n)
    → try_resume waiting calling outcome left h ≡ try_resume waiting calling other left h
unfolding try_resume
try_resume-attempts waiting calling outcome other zero h same = refl
try_resume-attempts waiting calling outcome other (suc left) h same =
    rw
      (
        same left (omega arith),
        try_resume-attempts waiting calling outcome other left
            (settle_attempt (other left) (waiting left h).now (calling left (waiting left h)))
            (λ n l. same n (omega arith)),
      )
      refl

-- However the provider answers each attempt, and whatever other handlers do before and during the
-- attempts, a resume ends in a session that is not marked as paused or that has ended; and it makes
-- at most three attempts: what any further one would give does not matter.
pub resume_sandbox-settled :
    (sandbox_provider : String) (waiting calling : ℕ → Host → Host) (outcome : ℕ → ResumeOutcome)
    (h : Host)
    → (is_settled (resume_sandbox sandbox_provider waiting calling outcome h) ≡ true)
      × ((other : ℕ → ResumeOutcome)
          → ((n : ℕ) → n < 3 → outcome n ≡ other n)
          → resume_sandbox sandbox_provider waiting calling outcome h
            ≡ resume_sandbox sandbox_provider waiting calling other h)
unfolding resume_sandbox
resume_sandbox-settled sandbox_provider waiting calling outcome h =
    elim (Bool-cases (is_settled h)) [
      | inl e ↦ (rw (e, resume_sandbox) e, λ other same. rw (e, resume_sandbox) refl)
      | inr e ↦ (
        rw (e, resume_sandbox)
            (if_rule (λ g. is_settled g ≡ true) (not (has_sandbox_ref sandbox_provider h))
              (fail_lost-settled h) (try_resume-settled waiting calling outcome resume_attempts h)),
        λ other same.
            rw (try_resume-attempts waiting calling outcome other resume_attempts h same) refl,
      )
    ]

-- A sandbox that was paused: the marker is set, its row is written, no agent is attached, and a
-- resume is asked for if and only if a run waits.
pub record IsPausedAt (now : ℕ) (h g : Host) : Type 0 where
  pub marked : g.meta.sandbox_paused_at ≡ some now
  pub closing : g.meta.expected_close ≡ h.meta.expected_close
  pub durable : g.saved ≡ g.meta
  pub detached : live_sandbox_sockets g.sockets ≡ []
  pub done : g.pausing ≡ false
  pub woken : g.resume_requested ≡ (not (is_empty h.meta.queued_runs) || h.resume_requested)

-- What is left of a pause that the provider did not carry out.
abbrev pub AfterPause : PauseOutcome → ℕ → Host → Host → Type 0
AfterPause pause_done now h g = IsPausedAt now h g
AfterPause pause_failed now h g =
    (g.meta.sandbox_paused_at ≡ none) × (g.meta.expected_close ≡ false) × (g.pausing ≡ false)
AfterPause pause_lost now h g = (g.meta.state ≡ failed) × (g.meta.sandbox_paused_at ≡ none)

mark_paused-IsPausedAt :
    (now : ℕ) (h : Host)
    → All IsObservable h.sockets
    → IsPausedAt now h (record (mark_paused now h) { pausing = false })
unfolding mark_paused save_meta emit update_directory request_sandbox_resume
mark_paused-IsPausedAt now h o = ground (arith, close_sandbox_sockets-none_live h.sockets o)

grace-KeepsPause :
    (h : Host)
    → ((start_reconnect_grace h).meta.sandbox_paused_at ≡ h.meta.sandbox_paused_at)
      × ((start_reconnect_grace h).meta.expected_close ≡ h.meta.expected_close)
      × ((start_reconnect_grace h).pausing ≡ h.pausing)
unfolding start_reconnect_grace emit update_directory save_meta
grace-KeepsPause h = ground arith

recover-KeepsPause :
    (h : Host)
    → ((recover_after_failed_pause h).meta.sandbox_paused_at ≡ h.meta.sandbox_paused_at)
      × ((recover_after_failed_pause h).meta.expected_close ≡ h.meta.expected_close)
      × ((recover_after_failed_pause h).pausing ≡ h.pausing)
unfolding recover_after_failed_pause
recover-KeepsPause h =
    let kept = release_work-KeepsSandbox h in
    let kept_grace = release_work-KeepsSandbox (start_reconnect_grace h) in
    let grace = grace-KeepsPause h in
    ground (
      arith, kept.paused_at, kept.expected_close, kept.pausing, kept_grace.paused_at,
      kept_grace.expected_close, kept_grace.pausing, grace,
    )

arm_next_alarm-meta : (now : ℕ) (h : Host) → (arm_next_alarm now h).meta ≡ h.meta
unfolding arm_next_alarm
arm_next_alarm-meta now h = ground arith

fail_lost-HasFailed :
    (h : Host)
    → is_terminal_state h.meta.state ≡ false
    → ((fail_lost_sandbox h).meta.state ≡ failed)
      × ((fail_lost_sandbox h).meta.sandbox_paused_at ≡ none)
unfolding fail_lost_sandbox
fail_lost-HasFailed h live =
    after_failing (λ g. (g.meta.state ≡ failed) × (g.meta.sandbox_paused_at ≡ none))
      "Sandbox expired." "sandbox expired" h (arm_next_alarm (h.now - 1))
      (λ over. absurd (ground (arith, over)))
      (λ g ended. rw (arm_next_alarm-meta (h.now - 1) g) (ended.ended, ended.awake))

recover-ended :
    (h : Host) → is_terminal_state h.meta.state ≡ true → recover_after_failed_pause h ≡ h
unfolding recover_after_failed_pause
recover-ended h over = ground (arith, over)

kept_awake :
    (h : Host)
    → is_terminal_state h.meta.state ≡ false
    → ((keep_sandbox h).meta.sandbox_paused_at ≡ h.meta.sandbox_paused_at)
      × ((keep_sandbox h).meta.expected_close ≡ false)
unfolding keep_sandbox save_meta
kept_awake h live = ground (arith, live)

-- When the provider has answered a pause of a session that has not ended and is not marked as
-- paused, where the closing of each of its sockets can be seen: if the sandbox was paused, the marker and its row are written, no agent is attached and a
-- resume is asked for if a run was queued meanwhile; if the call failed, the sandbox is not expected
-- to close any more; if there is no such sandbox, the session has failed.
pub end_pause-AfterPause :
    (outcome : PauseOutcome) (now : ℕ) (h : Host)
    → is_terminal_state h.meta.state ≡ false
    → h.meta.sandbox_paused_at ≡ none
    → All IsObservable h.sockets
    → AfterPause outcome now h (end_pause outcome now h)
unfolding end_pause settle_pause is_terminal_state
end_pause-AfterPause pause_done now h live awake o =
    rw (live, end_pause) (mark_paused-IsPausedAt now h o)
end_pause-AfterPause pause_failed now h live awake o =
    let (p, e, q) = recover-KeepsPause (record (keep_sandbox h) { pausing = false }) in
    let (kept, closing) = kept_awake h live in (p ∙ kept ∙ awake, e ∙ closing, q)
end_pause-AfterPause pause_lost now h live awake o =
    let (fails, wakes) = fail_lost-HasFailed h live in
    let stays =
      recover-ended (record (fail_lost_sandbox h) { pausing = false })
        (ap is_terminal_state fails) in
    rw stays (fails, wakes)

-- A session that ended while the provider was asked to pause its sandbox is left as it is, whatever
-- the provider answers.
pub end_pause-ended :
    (outcome : PauseOutcome) (now : ℕ) (h : Host)
    → is_terminal_state h.meta.state ≡ true
    → end_pause outcome now h ≡ record h { pausing = false }
unfolding end_pause settle_pause keep_sandbox fail_lost_sandbox recover_after_failed_pause
end_pause-ended pause_done now h over = ground (arith, over)
end_pause-ended pause_failed now h over = ground (arith, over)
end_pause-ended pause_lost now h over =
    ground (arith, over, (fail_session-HasEnded "Sandbox expired." "sandbox expired" h).0 over)
