-- ===== src/SandboxHandlers/Planning.antt =====
-- The invariant and the messages on plans and their refinement
-- (packages/worker/src/orchestrator/sandbox-handlers.ts).
use codevil.Base.{ℕ, zero, suc, ◌≤◌, if_rule, String, some, arith, inl, inr, Option-cases}
use codevil.Session.{awaiting_approval, is_valid_transition, max_refinement_rounds}
use codevil.Host.{
  Host, CostInfo, emit, update_directory, save_meta, transition, track_cost, with_meta,
}
use codevil.Consistency.{IsConsistent}
use codevil.Consistency.Steps.{track_cost-IsConsistent}
use codevil.Coordinator.{set_active_run_state}
use codevil.CliHandlers.Consistent.{dispatch_prose_brief-IsConsistent}
use codevil.CliHandlers.{only_if}
use codevil.PlanRevisions.{freeze_plan_revision, consume_open_annotations}
use codevil.SandboxHandlers.{
  freeze_if_plan_first, ask_for_approval, handle_sandbox_plan_ready, on_refining,
  handle_consolidation_complete, handle_consolidation_failed,
}

consume_open-IsConsistent :
    (run_id : String) (round : ℕ) (h : Host)
    → IsConsistent h
    → IsConsistent (consume_open_annotations run_id round h)
unfolding consume_open_annotations emit
consume_open-IsConsistent run_id round h c = ground arith

freeze-IsConsistent :
    (run_id : String) (round : ℕ) (plan : String) (h : Host)
    → IsConsistent h
    → IsConsistent (freeze_plan_revision run_id round plan h)
unfolding freeze_plan_revision emit
freeze-IsConsistent run_id zero plan h c = ground arith
freeze-IsConsistent run_id (suc round) plan h c =
    ground (arith, consume_open-IsConsistent run_id round h c)

freeze_if_plan_first-IsConsistent :
    (plan : String) (h : Host) → IsConsistent h → IsConsistent (freeze_if_plan_first plan h)
unfolding freeze_if_plan_first
freeze_if_plan_first-IsConsistent plan h c = elim (Option-cases h.meta.active_run) [
  | inl e ↦ rw (e, freeze_if_plan_first) c
  | inr (run, e) ↦
      rw (e, freeze_if_plan_first)
        (ground (arith, freeze-IsConsistent run.id h.meta.refinement_round plan h c))
]

approval-IsConsistent :
    (plan : String) (cost : CostInfo) (h : Host)
    → IsConsistent h
    → IsConsistent (only_if (transition awaiting_approval h) (ask_for_approval plan cost))
unfolding ask_for_approval transition is_valid_transition save_meta emit set_active_run_state
    update_directory
approval-IsConsistent plan cost h c = ground arith

keep_plan-IsConsistent :
    (plan : String) (h : Host)
    → IsConsistent h
    → IsConsistent (save_meta (with_meta (record h.meta { latest_plan = some plan }) h))
unfolding save_meta
keep_plan-IsConsistent plan h c = ground arith

pub plan_ready-IsConsistent :
    (plan : String) (cost : CostInfo) (h : Host)
    → IsConsistent h
    → IsConsistent (handle_sandbox_plan_ready plan cost h)
unfolding handle_sandbox_plan_ready
plan_ready-IsConsistent plan cost h c =
    let tracked = track_cost-IsConsistent cost _ (keep_plan-IsConsistent plan h c) in
    if_rule IsConsistent _ tracked
      (approval-IsConsistent plan cost _ (freeze_if_plan_first-IsConsistent plan _ tracked))

pub consolidation_complete-IsConsistent :
    (run_id : String) (round : ℕ) (brief : String) (cost : CostInfo) (h : Host)
    → IsConsistent h
    → suc round ≤ max_refinement_rounds
    → IsConsistent (handle_consolidation_complete run_id round brief cost h)
unfolding handle_consolidation_complete on_refining track_cost save_meta emit
consolidation_complete-IsConsistent run_id round brief cost h c r =
    elim (Option-cases h.meta.active_run) [
      | inl e ↦ rw (e, on_refining) c
      | inr (run, e) ↦
          rw (e, on_refining)
            (ground (arith, dispatch_prose_brief-IsConsistent brief (track_cost cost h)))
    ]

pub consolidation_failed-IsConsistent :
    (run_id : String) (round : ℕ) (message : String) (h : Host)
    → IsConsistent h
    → IsConsistent (handle_consolidation_failed run_id round message h)
unfolding handle_consolidation_failed on_refining transition is_valid_transition save_meta emit
    set_active_run_state update_directory
consolidation_failed-IsConsistent run_id round message h c = ground arith
