-- ===== src/CliHandlers/Deciding.antt =====
-- Decisions on a plan, and the abort of a run.
use codevil.Base.{
  ℕ, ◌+◌, Bool, true, false, not, String, List, [], ◌∷◌, Option, none, some, str_eq, leb, length,
  if◌then◌else◌, get_or_else,
}
use codevil.Text.{concat, decimal, trim}
use codevil.Session.{
  ready, awaiting_approval, executing, refining, is_state, is_terminal_state, state_name,
  max_refinement_rounds,
}
use codevil.Room.{AgentRun, AgentRunState}
use codevil.Host.{
  Host, Event, SandboxMessage, PlanRevision, AnnotationThread, approve, refine, with_meta,
  save_meta, emit, fail_with, send_to_sandbox, transition,
}
use codevil.Coordinator.{
  ensure_active_run, set_active_run_state, record_decision, decision_rejection,
  finish_run_and_drain_queue,
}
use codevil.Annotations.{to_consolidation_annotations, prose_brief_from_note}
use codevil.PlanRevisions.{load_plan_revision, load_open_annotation_threads, lock_plan_revision}
use codevil.CliHandlers.Asking.{cancel_open_questions}

abbrev pub active_run_id : Host → Option String
active_run_id h = elim h.meta.active_run [ none ↦ none | some run ↦ some run.id ]

-- A guard that failed leaves what it told the clients.
abbrev pub only_if : Host × Bool → (Host → Host) → Host
only_if (h, true) k = k h
only_if (h, false) k = h

unfoldable pub start_execution : String → Host → Host
start_execution actor h0 =
    let h =
      record_decision
        (record { actor = actor; action = approve; refinement_round = h0.meta.refinement_round })
        (set_active_run_state AgentRunState.executing h0) in
    send_to_sandbox
      (SandboxMessage.execute (get_or_else h.meta.latest_plan "") h.meta.exec_model h.meta.provider)
      (emit (Event.plan_execution_started (get_or_else (active_run_id h) "run_unknown") actor) h)

unfoldable pub approve_active : String → Host → Host
approve_active actor h =
    if not (is_state h.meta.state awaiting_approval)
    then emit
        (decision_rejection h (concat ("Cannot approve in state: " ∷ state_name h.meta.state ∷ [])))
        h
    else only_if (transition executing h) (start_execution actor)

unfoldable pub handle_approve : String → Option String → Host → Host
handle_approve actor run_id h = only_if (ensure_active_run run_id h) (approve_active actor)

unfoldable pub abort_run : String → String → Host → Host
abort_run actor run_id h = finish_run_and_drain_queue AgentRunState.cancelled (
    emit (Event.agent_run_failed run_id "Agent run cancelled.") (
      cancel_open_questions run_id "run cancelled"
        (emit (Event.status "Agent run cancelled." (some actor)) h)))

unfoldable pub finish_aborted : String → Host → Host
finish_aborted actor h = elim (active_run_id h) [
  | none ↦
      finish_run_and_drain_queue AgentRunState.cancelled
        (emit (Event.status "Agent run cancelled." (some actor)) h)
  | some id ↦ abort_run actor id h
]

unfoldable pub abort_active : String → Host → Host
abort_active actor h =
    if is_terminal_state h.meta.state
    then fail_with (concat ("Session already in terminal state: " ∷ state_name h.meta.state ∷ [])) h
    else only_if (transition ready h) (finish_aborted actor)

unfoldable pub handle_abort : String → Option String → Host → Host
handle_abort actor run_id h = only_if (ensure_active_run run_id h) (abort_active actor)

unfoldable pub dispatch_prose_brief : String → Host → Host
dispatch_prose_brief brief h = elim h.meta.active_run [
  | none ↦ h
  | some run ↦
      let from_round = h.meta.refinement_round in
      send_to_sandbox
        (SandboxMessage.refine_plan (if str_eq (trim brief) "" then "Refine the plan." else brief))
        (emit (Event.brief_dispatched run.id from_round (from_round + 1) brief)
          (save_meta (with_meta (record h.meta { refinement_round = from_round + 1 }) h)))
]

unfoldable pub request_consolidation : AgentRun → PlanRevision → List AnnotationThread → Host → Host
request_consolidation run revision threads h =
    send_to_sandbox
      (SandboxMessage.consolidate_annotations run.id round
        (concat (run.id ∷ ":" ∷ decimal round ∷ [])) revision.markdown
        (to_consolidation_annotations threads) h.meta.plan_model h.meta.provider)
      (emit (Event.consolidation_started run.id round) h)
  where
    round : ℕ
    round = h.meta.refinement_round

unfoldable pub refine_revision : AgentRun → PlanRevision → String → Host → Host
refine_revision run revision feedback h0 =
    let h = lock_plan_revision run.id h0.meta.refinement_round h0 in
    let threads = load_open_annotation_threads h run.id h.meta.refinement_round in
    if leb (length threads) 1
    then dispatch_prose_brief (prose_brief_from_note feedback threads) h
    else request_consolidation run revision threads h

unfoldable pub start_plan_first_refinement : String → Host → Host
start_plan_first_refinement feedback h = elim h.meta.active_run [
  | none ↦ h
  | some run ↦ elim (load_plan_revision h.revisions run.id h.meta.refinement_round) [
    | none ↦
        fail_with "Plan revision not found."
          (set_active_run_state AgentRunState.awaiting_approval (transition awaiting_approval h).0)
    | some revision ↦ refine_revision run revision feedback h
  ]
]

abbrev pub is_plan_first : Option AgentRun → Bool
is_plan_first none = false
is_plan_first (some run) = run.plan_first

refining_message : ℕ → String → String
refining_message round feedback = concat (
    "Refining plan (round "
    ∷ decimal (round + 1)
    ∷ "/"
    ∷ decimal max_refinement_rounds
    ∷ "): "
    ∷ feedback
    ∷ [])

unfoldable pub announce_refinement : String → String → Host → Host
unfolding refining_message
announce_refinement feedback actor h0 =
    let h =
      record_decision
        (record { actor = actor; action = refine; refinement_round = h0.meta.refinement_round })
        (set_active_run_state AgentRunState.thinking h0) in
    emit (Event.status (refining_message h.meta.refinement_round feedback) (some actor)) h

unfoldable pub start_refinement : String → String → Host → Host
start_refinement feedback actor h0 =
    let h = announce_refinement feedback actor h0 in
    if is_plan_first h.meta.active_run
    then start_plan_first_refinement feedback h
    else dispatch_prose_brief feedback h

unfoldable pub refine_active : String → String → Host → Host
refine_active feedback actor h =
    if not (is_state h.meta.state awaiting_approval)
    then emit
        (decision_rejection h (concat ("Cannot refine in state: " ∷ state_name h.meta.state ∷ [])))
        h
    else if leb max_refinement_rounds h.meta.refinement_round
    then fail_with
        (concat ("Maximum refinement rounds (" ∷ decimal max_refinement_rounds ∷ ") reached." ∷ []))
        h
    else only_if (transition refining h) (start_refinement feedback actor)

unfoldable pub handle_refine : String → String → Option String → Host → Host
handle_refine feedback actor run_id h =
    only_if (ensure_active_run run_id h) (refine_active feedback actor)
