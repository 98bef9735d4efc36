-- ===== src/CliHandlers/Decisions.antt =====
-- A first decision on a plan and later ones
-- (packages/worker/src/orchestrator/cli-handlers.ts).
use codevil.Base.{
  is_empty, get_or_else, ◌≡◌, refl, true, false, [], ◌∷◌, Option, some, String, arith, ==_iff,
}
use codevil.Text.{concat}
use codevil.Session.{awaiting_approval, executing, is_valid_transition, is_state}
use codevil.Room.{AgentRun, AgentRunState}
use codevil.Connection.{live_sandbox_sockets}
use codevil.Host.{
  SandboxMessage, Host, Event, approve, emit, save_meta, transition, send_to_sandbox,
  update_directory,
}
use codevil.Coordinator.{
  ensure_active_run, set_active_run_state, record_decision, decision_rejection,
  describe_decision_rejection, decision_text,
}
use codevil.CliHandlers.{
  handle_approve, approve_active, start_execution, handle_refine, refine_active,
}

-- What a session is after the plan of a round has been approved by `actor`.
pub record IsApproved (actor : String) (h g : Host) : Type 0 where
  pub in_execution : g.meta.state ≡ executing
  pub decided :
      g.meta.last_decision
      ≡ some
          (record { actor = actor; action = approve; refinement_round = h.meta.refinement_round })
  pub same_round : g.meta.refinement_round ≡ h.meta.refinement_round
  pub same_queue : g.meta.queued_runs ≡ h.meta.queued_runs
  pub durable : g.saved ≡ g.meta
  pub run_executes :
      (run : AgentRun)
      → h.meta.active_run ≡ some run
      → g.meta.active_run ≡ some (record run { state = AgentRunState.executing })
  pub sandbox_told :
      is_empty (live_sandbox_sockets h.sockets) ≡ false
      → g.sent
        ≡ SandboxMessage.execute
            (get_or_else h.meta.latest_plan "")
            h.meta.exec_model
            h.meta.provider
          ∷ h.sent

approve_active-IsApproved :
    (actor : String) (h : Host)
    → h.meta.state ≡ awaiting_approval
    → IsApproved actor h (approve_active actor h)
unfolding approve_active emit transition is_valid_transition start_execution set_active_run_state
    record_decision send_to_sandbox update_directory save_meta
approve_active-IsApproved actor h s = ground arith

-- What anyone who decides on a plan that `first` has approved is told.
abbrev pub approved_already : String → Event
approved_already first =
    Event.error (concat (first ∷ " already approved this plan." ∷ [])) (some first)

rejection-IsApproved :
    (first fallback : String) (h g : Host)
    → IsApproved first h g
    → decision_rejection g fallback ≡ approved_already first
unfolding decision_rejection describe_decision_rejection decision_text
rejection-IsApproved first fallback h g a =
    rw (a.decided, decision_rejection)
      (rw (a.same_round) (rw ((==_iff h.meta.refinement_round _).1 refl) refl))

not_waiting :
    (first : String) (h g : Host)
    → IsApproved first h g
    → is_state g.meta.state awaiting_approval ≡ false
not_waiting first h g a = ground (arith, a.in_execution)

active-rejected :
    (first second feedback : String) (h g : Host)
    → IsApproved first h g
    → (approve_active second g ≡ emit (approved_already first) g)
      × (refine_active feedback second g ≡ emit (approved_already first) g)
unfolding approve_active refine_active
active-rejected first second feedback h g a = (
  rw (not_waiting first h g a, approve_active) (rw (rejection-IsApproved first _ h g a) refl),
  rw (not_waiting first h g a, refine_active) (rw (rejection-IsApproved first _ h g a) refl),
)

-- The first approval of a plan that waits for it, for the active run, starts its execution: the
-- session and the run are executing, and an attached sandbox is sent the plan. It is written down with
-- its round; whoever then approves or refines that run's plan changes nothing
-- but the log, where they are told who approved it.
pub first_approval_wins :
    (first second feedback : String) (run_id later_id : Option String) (h : Host)
    → ensure_active_run run_id h ≡ (h, true)
    → h.meta.state ≡ awaiting_approval
    → let g = handle_approve first run_id h in
      IsApproved first h g
      × (ensure_active_run later_id g ≡ (g, true)
          → (handle_approve second later_id g ≡ emit (approved_already first) g)
            × (handle_refine feedback second later_id g ≡ emit (approved_already first) g))
unfolding handle_approve handle_refine
first_approval_wins first second feedback run_id later_id h e s =
    rw (e) (approved, λ f. rw f (active-rejected first second feedback h _ approved))
  where
    approved : IsApproved first h (approve_active first h)
    approved = approve_active-IsApproved first h s
