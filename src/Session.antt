-- ===== src/Session.antt =====
-- packages/shared/src/session.ts: the states of a session and the table of its transitions.
pub mod Graph
use codevil.Base.{ℕ, ◌≡◌, refl, Bool, String, List, [], ◌∷◌, any, is_empty, ◌==◌, arith, true}

pub data SessionState : Type 0 where
  initializing provisioning_sandbox cloning_repo ready planning awaiting_approval : SessionState
  refining executing verifying retrying creating_pr completed failed timed_out : SessionState

-- A number for each state, by which two states are compared.
abbrev pub rank : SessionState → ℕ
rank initializing = 0
rank provisioning_sandbox = 1
rank cloning_repo = 2
rank ready = 3
rank planning = 4
rank awaiting_approval = 5
rank refining = 6
rank executing = 7
rank verifying = 8
rank retrying = 9
rank creating_pr = 10
rank completed = 11
rank failed = 12
rank timed_out = 13

-- `===` on states.
abbrev pub is_state : SessionState → SessionState → Bool
is_state s t = rank s == rank t

-- The text that stands for a state in messages.
unfoldable pub state_name : SessionState → String
state_name initializing = "initializing"
state_name provisioning_sandbox = "provisioning_sandbox"
state_name cloning_repo = "cloning_repo"
state_name ready = "ready"
state_name planning = "planning"
state_name awaiting_approval = "awaiting_approval"
state_name refining = "refining"
state_name executing = "executing"
state_name verifying = "verifying"
state_name retrying = "retrying"
state_name creating_pr = "creating_pr"
state_name completed = "completed"
state_name failed = "failed"
state_name timed_out = "timed_out"

abbrev pub transitions : SessionState → List SessionState
transitions initializing = provisioning_sandbox ∷ failed ∷ []
transitions provisioning_sandbox = cloning_repo ∷ failed ∷ timed_out ∷ []
transitions cloning_repo = ready ∷ planning ∷ failed ∷ timed_out ∷ []
transitions ready = planning ∷ executing ∷ failed ∷ timed_out ∷ []
transitions planning = awaiting_approval ∷ ready ∷ failed ∷ timed_out ∷ []
transitions awaiting_approval = refining ∷ executing ∷ ready ∷ failed ∷ timed_out ∷ []
transitions refining = awaiting_approval ∷ ready ∷ failed ∷ timed_out ∷ []
transitions executing = verifying ∷ ready ∷ failed ∷ timed_out ∷ []
transitions verifying = retrying ∷ creating_pr ∷ ready ∷ failed ∷ timed_out ∷ []
transitions retrying = verifying ∷ failed ∷ timed_out ∷ []
transitions creating_pr = ready ∷ completed ∷ failed ∷ timed_out ∷ []
transitions completed = []
transitions failed = []
transitions timed_out = []

unfoldable pub is_valid_transition : SessionState → SessionState → Bool
is_valid_transition from to = any (λ s. is_state s to) (transitions from)

unfoldable pub is_terminal_state : SessionState → Bool
is_terminal_state state = is_empty (transitions state)

abbrev pub max_refinement_rounds : ℕ
max_refinement_rounds = 5

pub is_state→eq : (s t : SessionState) → is_state s t ≡ true → s ≡ t
is_state→eq s t h = ground arith
