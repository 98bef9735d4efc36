-- ===== src/Coordinator/Steps.antt =====
-- The operations of the coordinator that do not call one another in a circle.
use codevil.Base.{
  ℕ, Bool, true, false, not, ◌&&◌, String, [], ◌∷◌, Option, none, some, str_eq, ◌==◌, if◌then◌else◌,
}
use codevil.Text.{concat}
use codevil.Room.{AgentRunState}
use codevil.Host.{
  Host, Event, DecisionAction, approve, refine, LastDecision, with_meta, save_meta, fail_with,
  update_directory, no_patch,
}

-- A run identifier that is missing or empty asks for no particular run.
unfoldable pub ensure_active_run : Option String → Host → Host × Bool
ensure_active_run run_id h = elim h.meta.active_run [
  | none ↦ (fail_with "No active agent run." h, false)
  | some active ↦ elim run_id [
    | none ↦ (h, true)
    | some id ↦
        if not (str_eq id "") && not (str_eq active.id id)
        then (fail_with (concat ("Run " ∷ id ∷ " is not active." ∷ [])) h, false)
        else (h, true)
  ]
]

abbrev pub active_run_patch : Option AgentRunState → Host → Host
active_run_patch state = update_directory (record no_patch { active_run_state = some state })

unfoldable pub set_active_run_state : AgentRunState → Host → Host
set_active_run_state state h = elim h.meta.active_run [
  | none ↦ h
  | some run ↦
      active_run_patch (some state) (
        save_meta
          (with_meta (record h.meta { active_run = some (record run { state = state }) }) h))
]

unfoldable pub record_decision : LastDecision → Host → Host
record_decision decision h =
    save_meta (with_meta (record h.meta { last_decision = some decision }) h)

pub record Attribution : Type 0 where
  pub actor : String
  pub message : String

unfoldable pub decision_text : DecisionAction → String
decision_text approve = " already approved this plan."
decision_text refine = " already sent this plan back for refinement."

unfoldable pub describe_decision_rejection : Option LastDecision → ℕ → Option Attribution
describe_decision_rejection none current_round = none
describe_decision_rejection (some last) current_round =
    if not (last.refinement_round == current_round)
    then none
    else some (record {
      actor = last.actor;
      message = concat (last.actor ∷ decision_text last.action ∷ []);
    })

unfoldable pub decision_rejection : Host → String → Event
decision_rejection h fallback =
    elim (describe_decision_rejection h.meta.last_decision h.meta.refinement_round) [
      | none ↦ Event.error fallback none
      | some a ↦ Event.error a.message (some a.actor)
    ]
