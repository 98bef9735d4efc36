-- ===== src/CliHandlers/Consistent.antt =====
-- The invariant and the handlers of decisions and aborts
-- (packages/worker/src/orchestrator/cli-handlers.ts).
use codevil.Base.{
  ◌≡◌, true, false, suc, ◌≤◌, String, Option, none, arith, inl, inr, Bool-cases, Option-cases,
}
use codevil.Session.{
  SessionState, ready, refining, awaiting_approval, is_valid_transition, is_terminal_state,
  max_refinement_rounds,
}
use codevil.Room.{AgentRun, AgentRunState}
use codevil.Host.{
  Host, PlanRevision, Event, emit, send_to_sandbox, update_directory, save_meta, transition,
}
use codevil.Consistency.{IsConsistent}
use codevil.CliHandlers.Frame.{cancel_open_questions-KeepsMeta, only_if_rule, only_if_cases}
use codevil.Consistency.Steps.{emit-IsConsistent}
use codevil.Coordinator.{ensure_active_run, set_active_run_state, record_decision}
use codevil.Coordinator.Consistent.{
  IsBetween, emit-IsBetween, finish_run_and_drain_queue-IsConsistent,
}
use codevil.PlanRevisions.{lock_plan_revision, load_plan_revision}
use codevil.CliHandlers.{
  handle_approve, approve_active, abort_active, finish_aborted, announce_refinement, refine_active,
  start_execution, cancel_open_questions, handle_abort, abort_run, dispatch_prose_brief,
  request_consolidation, refine_revision, start_plan_first_refinement, start_refinement,
  handle_refine,
}

cancel_open_questions-IsBetween :
    (run_id reason : String) (h : Host)
    → IsBetween h
    → IsBetween (cancel_open_questions run_id reason h)
cancel_open_questions-IsBetween run_id reason h b =
    ground (arith, cancel_open_questions-KeepsMeta run_id reason h)

pub cancel_open_questions-IsConsistent :
    (run_id reason : String) (h : Host)
    → IsConsistent h
    → IsConsistent (cancel_open_questions run_id reason h)
cancel_open_questions-IsConsistent run_id reason h c =
    ground (arith, cancel_open_questions-KeepsMeta run_id reason h)

ensure_active_run-IsConsistent :
    (run_id : Option String) (h : Host)
    → IsConsistent h
    → IsConsistent (ensure_active_run run_id h).0
unfolding ensure_active_run emit
ensure_active_run-IsConsistent run_id h c = ground arith

approve_active-IsConsistent :
    (actor : String) (h : Host) → IsConsistent h → IsConsistent (approve_active actor h)
unfolding approve_active emit transition is_valid_transition start_execution set_active_run_state
    record_decision send_to_sandbox update_directory save_meta
approve_active-IsConsistent actor h c = ground arith

pub handle_approve-IsConsistent :
    (actor : String) (run_id : Option String) (h : Host)
    → IsConsistent h
    → IsConsistent (handle_approve actor run_id h)
unfolding handle_approve
handle_approve-IsConsistent actor run_id h c =
    only_if_rule IsConsistent (ensure_active_run run_id h) (approve_active actor)
      (ensure_active_run-IsConsistent run_id h c)
      (λ _. approve_active-IsConsistent actor _ (ensure_active_run-IsConsistent run_id h c))

abort_run-IsConsistent :
    (actor run_id : String) (h : Host) → IsBetween h → IsConsistent (abort_run actor run_id h)
unfolding abort_run
abort_run-IsConsistent actor run_id h b =
    finish_run_and_drain_queue-IsConsistent AgentRunState.cancelled _
      (emit-IsBetween _ _ (cancel_open_questions-IsBetween run_id _ _ (emit-IsBetween _ h b)))

finish_aborted-IsConsistent :
    (actor : String) (h : Host) → IsBetween h → IsConsistent (finish_aborted actor h)
unfolding finish_aborted
finish_aborted-IsConsistent actor h b = elim (Option-cases h.meta.active_run) [
  | inl e ↦
      rw (e, finish_aborted)
        (finish_run_and_drain_queue-IsConsistent AgentRunState.cancelled _ (emit-IsBetween _ h b))
  | inr (run, e) ↦ rw (e, finish_aborted) (abort_run-IsConsistent actor run.id h b)
]

transition-IsBetween :
    (h : Host) → IsConsistent h → (transition ready h).1 ≡ true → IsBetween (transition ready h).0
unfolding transition save_meta emit
transition-IsBetween h c moved = ground arith

transition_refused-IsConsistent :
    (s : SessionState) (h : Host)
    → IsConsistent h
    → (transition s h).1 ≡ false
    → IsConsistent (transition s h).0
unfolding transition save_meta emit
transition_refused-IsConsistent s h c stuck = ground arith

abort_active-IsConsistent :
    (actor : String) (h : Host) → IsConsistent h → IsConsistent (abort_active actor h)
unfolding abort_active
abort_active-IsConsistent actor h c = elim (Bool-cases (is_terminal_state h.meta.state)) [
  | inl e ↦ rw (e, abort_active) (emit-IsConsistent _ h c)
  | inr e ↦
      rw (e, abort_active)
        (only_if_cases IsConsistent (transition ready h) _
          (transition_refused-IsConsistent ready h c)
          (λ moved. finish_aborted-IsConsistent actor _ (transition-IsBetween h c moved)))
]

pub handle_abort-IsConsistent :
    (actor : String) (run_id : Option String) (h : Host)
    → IsConsistent h
    → IsConsistent (handle_abort actor run_id h)
unfolding handle_abort
handle_abort-IsConsistent actor run_id h c =
    only_if_rule IsConsistent (ensure_active_run run_id h) (abort_active actor)
      (ensure_active_run-IsConsistent run_id h c)
      (λ _. abort_active-IsConsistent actor _ (ensure_active_run-IsConsistent run_id h c))

-- Another round is allowed.
abbrev pub HasRound : Host → Type 0
HasRound h = suc h.meta.refinement_round ≤ max_refinement_rounds

pub dispatch_prose_brief-IsConsistent :
    (brief : String) (h : Host)
    → IsConsistent h
    → HasRound h
    → IsConsistent (dispatch_prose_brief brief h)
unfolding dispatch_prose_brief save_meta emit send_to_sandbox
dispatch_prose_brief-IsConsistent brief h c r = ground arith

refine_revision-IsConsistent :
    (run : AgentRun) (revision : PlanRevision) (feedback : String) (h : Host)
    → IsConsistent h
    → HasRound h
    → IsConsistent (refine_revision run revision feedback h)
unfolding refine_revision lock_plan_revision emit request_consolidation dispatch_prose_brief
    send_to_sandbox save_meta
refine_revision-IsConsistent run revision feedback h c r = ground arith

back_to_approval-IsConsistent :
    (message : String) (h : Host)
    → IsConsistent h
    → h.meta.state ≡ refining
    → IsConsistent (
        emit
          (Event.error message none)
          (set_active_run_state AgentRunState.awaiting_approval (transition awaiting_approval h).0))
unfolding set_active_run_state transition is_valid_transition emit update_directory save_meta
back_to_approval-IsConsistent message h c s = ground arith

start_plan_first_refinement-IsConsistent :
    (feedback : String) (h : Host)
    → IsConsistent h
    → HasRound h
    → h.meta.state ≡ refining
    → IsConsistent (start_plan_first_refinement feedback h)
unfolding start_plan_first_refinement
start_plan_first_refinement-IsConsistent feedback h c r s = elim (Option-cases h.meta.active_run) [
  | inl e ↦ rw (e, start_plan_first_refinement) c
  | inr (run, e) ↦
      rw (e, start_plan_first_refinement)
        (elim (Option-cases (load_plan_revision h.revisions run.id h.meta.refinement_round)) [
          | inl f ↦ rw (f, start_plan_first_refinement) (back_to_approval-IsConsistent _ h c s)
          | inr (rev, f) ↦
              rw (f, start_plan_first_refinement)
                (refine_revision-IsConsistent run rev feedback h c r)
        ])
]

announce_refinement-IsConsistent :
    (feedback actor : String) (h : Host)
    → IsConsistent h
    → h.meta.state ≡ awaiting_approval
    → let g = announce_refinement feedback actor (transition refining h).0 in
      IsConsistent g
      × (g.meta.state ≡ refining)
      × (g.meta.refinement_round ≡ h.meta.refinement_round)
unfolding announce_refinement transition is_valid_transition set_active_run_state record_decision
    emit update_directory save_meta
announce_refinement-IsConsistent feedback actor h c s = ground arith

start_refinement-IsConsistent :
    (feedback actor : String) (h : Host)
    → IsConsistent h
    → HasRound h
    → h.meta.state ≡ awaiting_approval
    → IsConsistent (start_refinement feedback actor (transition refining h).0)
unfolding start_refinement
start_refinement-IsConsistent feedback actor h c r s = ground (
  arith,
  announce_refinement-IsConsistent feedback actor h c s,
  start_plan_first_refinement-IsConsistent feedback
      (announce_refinement feedback actor (transition refining h).0),
  dispatch_prose_brief-IsConsistent feedback
      (announce_refinement feedback actor (transition refining h).0),
)

refine_active-IsConsistent :
    (feedback actor : String) (h : Host)
    → IsConsistent h
    → IsConsistent (refine_active feedback actor h)
unfolding refine_active emit
refine_active-IsConsistent feedback actor h c = ground (
  arith,
  transition_refused-IsConsistent refining h c,
  start_refinement-IsConsistent feedback actor h c,
)

pub handle_refine-IsConsistent :
    (feedback actor : String) (run_id : Option String) (h : Host)
    → IsConsistent h
    → IsConsistent (handle_refine feedback actor run_id h)
unfolding handle_refine
handle_refine-IsConsistent feedback actor run_id h c =
    only_if_rule IsConsistent (ensure_active_run run_id h) (refine_active feedback actor)
      (ensure_active_run-IsConsistent run_id h c)
      (λ _. refine_active-IsConsistent feedback actor _ (ensure_active_run-IsConsistent run_id h c))
