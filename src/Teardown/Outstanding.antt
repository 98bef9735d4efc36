-- ===== src/Teardown/Outstanding.antt =====
-- The runs of a session that fails
-- (packages/worker/src/orchestrator/sandbox-session-lifecycle.ts).
use codevil.Base.{
  ◌≡◌, refl, true, false, String, List, [], ◌∷◌, Option, none, some, arith, inl, inr, Option-cases,
  ◌∙◌, ap,
}
use codevil.Session.{failed, is_valid_transition, is_terminal_state}
use codevil.Room.{AgentRun, AgentRunState}
use codevil.Host.{
  Host, SessionMeta, Event, emit, save_meta, transition, update_directory, with_meta,
}
use codevil.CliHandlers.Frame.{cancel_open_questions-KeepsMeta}
use codevil.Teardown.{fail_queued, fail_active, fail_outstanding_runs, fail_session}

-- The queue's failures, the last one first.
abbrev pub told_failed : String → List AgentRun → List Event → List Event
told_failed message [] events = events
told_failed message (run ∷ runs) events =
    told_failed message runs (Event.agent_run_failed run.id message ∷ events)

fail_queued-lem :
    (message : String) (queue : List AgentRun) (h : Host)
    → (fail_queued message queue h).meta ≡ h.meta
      × ((fail_queued message queue h).events ≡ told_failed message queue h.events)
unfolding fail_queued emit
fail_queued-lem message [] h = (refl, refl)
fail_queued-lem message (run ∷ runs) h = fail_queued-lem message runs _

-- A run as it is once it has failed.
abbrev pub failed_run : Option AgentRun → Option AgentRun
failed_run none = none
failed_run (some run) = some (record run { state = AgentRunState.failed })

fail_active-meta :
    (message reason : String) (h : Host)
    → (fail_active message reason h).meta
      ≡ record h.meta { active_run = failed_run h.meta.active_run }
unfolding fail_active emit
fail_active-meta message reason h = elim (Option-cases h.meta.active_run) [
  | inl e ↦ ground (arith, e)
  | inr (run, e) ↦ rw (e, fail_active) ((cancel_open_questions-KeepsMeta run.id reason _).meta)
]

-- What a session is once it has failed, with `message` told to its clients.
pub record HasEnded (message : String) (h g : Host) : Type 0 where
  pub ended : g.meta.state ≡ failed
  pub no_queue : g.meta.queued_runs ≡ []
  pub last_run : g.meta.active_run ≡ failed_run h.meta.active_run
  pub rounds : g.meta.refinement_round ≡ h.meta.refinement_round
  pub awake : g.meta.sandbox_paused_at ≡ none
  pub no_preview : g.meta.pending_preview_action ≡ none
  pub durable : g.saved ≡ g.meta
  pub told :
      (before : List Event) × (g.events
        ≡ Event.error message none ∷ told_failed message h.meta.queued_runs before)

outstanding :
    (message reason : String) (h : Host)
    → ((fail_outstanding_runs message reason h).meta
        ≡ record h.meta { active_run = failed_run h.meta.active_run; queued_runs = [] })
      × ((fail_outstanding_runs message reason h).saved
          ≡ (fail_outstanding_runs message reason h).meta)
      × ((fail_outstanding_runs message reason h).events
          ≡ told_failed message h.meta.queued_runs (fail_active message reason h).events)
unfolding fail_outstanding_runs save_meta
outstanding message reason h =
    let queue = fail_queued-lem message h.meta.queued_runs (fail_active message reason h) in
    (
      ap {B = SessionMeta} (λ m. record m { queued_runs = [] })
          (queue.0 ∙ fail_active-meta message reason h),
      refl,
      queue.1,
    )

fails :
    (h : Host)
    → is_terminal_state h.meta.state ≡ false
    → transition failed h ≡ (save_meta (with_meta (record h.meta { state = failed }) h), true)
unfolding transition is_terminal_state is_valid_transition
fails h live = ground arith

live-HasEnded :
    (message reason : String) (h : Host)
    → is_terminal_state h.meta.state ≡ false
    → HasEnded message h (fail_session message reason h).0
      × ((fail_session message reason h).1 ≡ true)
unfolding fail_session update_directory emit save_meta
live-HasEnded message reason h live =
    rw (live, fail_session)
      (rw (fails h live) (
        record {
          ended = ap (λ n. n.state) (rest.0);
          no_queue = ap (λ n. n.queued_runs) (rest.0);
          last_run = ap (λ n. n.active_run) (rest.0);
          rounds = ap (λ n. n.refinement_round) (rest.0);
          awake = ap (λ n. n.sandbox_paused_at) (rest.0);
          no_preview = ap (λ n. n.pending_preview_action) (rest.0);
          durable = rest.1;
          told = (
            (fail_active message reason g).events,
            ap (λ es. Event.error message none ∷ es) (rest.2),
          );
        },
        refl,
      ))
  where
    g : Host
    g = record h {
      meta = record h.meta {
        state = failed;
        sandbox_paused_at = none;
        pending_preview_action = none;
      };
      saved = record h.meta { state = failed };
    }

    rest :
        ((fail_outstanding_runs message reason g).meta
          ≡ record g.meta { active_run = failed_run g.meta.active_run; queued_runs = [] })
        × ((fail_outstanding_runs message reason g).saved
            ≡ (fail_outstanding_runs message reason g).meta)
        × ((fail_outstanding_runs message reason g).events
            ≡ told_failed message g.meta.queued_runs (fail_active message reason g).events)
    rest = outstanding message reason g

-- A live session that fails ends in `failed`: its active run has failed, its queue is empty, its
-- rounds of refinement are what they were, it is not marked as paused and no preview command waits,
-- the meta's row is up to date, and each queued run is told to have failed before the session's error
-- is; a session that has ended already is left as it is.
pub fail_session-HasEnded :
    (message reason : String) (h : Host)
    → (is_terminal_state h.meta.state ≡ true → fail_session message reason h ≡ (h, false))
      × (is_terminal_state h.meta.state ≡ false
          → HasEnded message h (fail_session message reason h).0
            × ((fail_session message reason h).1 ≡ true))
unfolding fail_session
fail_session-HasEnded message reason h =
    (λ ended. rw (ended, fail_session) refl, λ live. live-HasEnded message reason h live)
