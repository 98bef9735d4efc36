-- ===== src/VerificationLoop.antt =====
-- packages/sandbox-image/src/verification.ts: the repository is verified, and repaired while attempts
-- are left; which command verifies it, and packages/sandbox-image/src/package-manager.ts: which
-- package manager it uses. The commands and the agent's repairs are arguments.
mod Commands
pub mod Attempts
unfoldable pub use Commands.*
use codevil.Base.{ℕ, zero, suc, ◌+◌, Bool, true, false, String, List, [], ◌∷◌, if◌then◌else◌}
use codevil.Text.{concat, join, trim, decimal}
use codevil.Host.{CostInfo}

abbrev pub max_verification_attempts : ℕ
max_verification_attempts = 5

unfoldable pub zero_cost : CostInfo
zero_cost = record { input_tokens = 0; output_tokens = 0; total_cost_usd = 0 }

unfoldable pub add_cost : CostInfo → CostInfo → CostInfo
add_cost left right = record {
  input_tokens = left.input_tokens + right.input_tokens;
  output_tokens = left.output_tokens + right.output_tokens;
  total_cost_usd = left.total_cost_usd + right.total_cost_usd;
}

pub record VerificationResult : Type 0 where
  pub success : Bool
  pub command : String
  pub output : String

pub data VerificationEvent : Type 0 where
  verification_started : (attempt max_attempts : ℕ) → VerificationEvent
  verification_retrying : (attempt max_attempts : ℕ) (last_error : String) → VerificationEvent
  verification_status : (message : String) → VerificationEvent

pub record VerificationOutcome : Type 0 where
  pub success : Bool
  pub attempts : ℕ
  pub last_error : String
  pub cost : CostInfo

unfoldable pub format_verification_failure : VerificationResult → String
format_verification_failure result =
    trim (concat (result.command ∷ " failed:\n" ∷ result.output ∷ []))

unfoldable pub repair_prompt : ℕ → ℕ → String → String
repair_prompt attempt max_attempts failure = join "\n" (
    concat (
      "Verification failed after attempt "
      ∷ decimal attempt
      ∷ "/"
      ∷ decimal max_attempts
      ∷ "."
      ∷ [])
    ∷ "Fix the failure, keep changes scoped to the approved plan, then stop."
    ∷ ""
    ∷ failure
    ∷ [])

unfoldable pub passed_message : ℕ → ℕ → String
passed_message attempt max_attempts =
    concat
      ("Verification passed on attempt " ∷ decimal attempt ∷ "/" ∷ decimal max_attempts ∷ "." ∷ [])

-- `verify` is what the command gives at an attempt, when the repository is as the repairs before it
-- have left it; `execute` is the cost of a repair. Events have the newest first.
module _ (verify : ℕ → VerificationResult) (execute : String → CostInfo) where
  -- The loop with `left` attempts after this one.
  unfoldable pub verify_from :
      (max_attempts left attempt : ℕ)
      → CostInfo
      → List VerificationEvent
      → VerificationOutcome × List VerificationEvent
  verify_from max_attempts zero attempt cost events =
      let result = verify attempt in
      let started = verification_started attempt max_attempts ∷ events in
      if result.success
      then (
        record { success = true; attempts = attempt; last_error = ""; cost = cost },
        verification_status (passed_message attempt max_attempts) ∷ started,
      )
      else (
        record {
          success = false;
          attempts = attempt;
          last_error = format_verification_failure result;
          cost = cost;
        },
        started,
      )
  verify_from max_attempts (suc left) attempt cost events =
      let result = verify attempt in
      let started = verification_started attempt max_attempts ∷ events in
      let last_error = format_verification_failure result in
      let repaired = execute (repair_prompt attempt max_attempts last_error) in
      let rest =
        verify_from max_attempts left (suc attempt) (add_cost cost repaired)
          (verification_retrying attempt max_attempts last_error ∷ started) in
      if result.success
      then (
        record { success = true; attempts = attempt; last_error = ""; cost = cost },
        verification_status (passed_message attempt max_attempts) ∷ started,
      )
      else rest

  unfoldable pub run_verification_loop : ℕ → VerificationOutcome × List VerificationEvent
  run_verification_loop zero =
      (record { success = false; attempts = 0; last_error = ""; cost = zero_cost }, [])
  run_verification_loop (suc left) = verify_from (suc left) left 1 zero_cost []
