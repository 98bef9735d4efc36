-- ===== src/VerificationLoop/Attempts.antt =====
-- Which attempt ends the verification (packages/sandbox-image/src/verification.ts).
use codevil.Base.{
  ℕ, zero, suc, ◌+◌, ◌≤◌, ◌<◌, ◌≡◌, refl, false, String, List, [], ◌∷◌, arith, inl, inr, Bool-cases,
  if_cases, ltb,
}
use codevil.Host.{CostInfo}
use codevil.VerificationLoop.{
  VerificationResult, VerificationEvent, verification_started, verification_retrying,
  VerificationOutcome, verify_from, run_verification_loop, format_verification_failure, zero_cost,
}

abbrev pub starts : List VerificationEvent → ℕ
starts [] = 0
starts (verification_started _ _ ∷ es) = suc (starts es)
starts (_ ∷ es) = starts es

abbrev pub retries : List VerificationEvent → ℕ
retries [] = 0
retries (verification_retrying _ _ _ ∷ es) = suc (retries es)
retries (_ ∷ es) = retries es

-- Every attempt before one has failed.
abbrev pub FailsBefore : (ℕ → VerificationResult) → ℕ → Type 0
FailsBefore verify attempt = (i : ℕ) → 1 ≤ i → i < attempt → (verify i).success ≡ false

-- An outcome with what was told: the attempts before the last one failed, the last one succeeded if
-- the outcome is a success, and otherwise it was the last one allowed and failed too, with its
-- message; each attempt was announced, and each but the last one as retried.
pub record IsOutcome (verify : ℕ → VerificationResult) (max_attempts : ℕ) (o : VerificationOutcome)
    (events : List VerificationEvent) : Type 0 where
  pub failed_before : FailsBefore verify o.attempts
  pub last : (verify o.attempts).success ≡ o.success
  pub within : o.attempts ≤ max_attempts
  pub exhausted : o.success ≡ false → o.attempts ≡ max_attempts
  pub told : o.success ≡ false → o.last_error ≡ format_verification_failure (verify o.attempts)
  pub announced : starts events ≡ o.attempts
  pub retried : suc (retries events) ≡ o.attempts

module _ (verify : ℕ → VerificationResult) (execute : String → CostInfo) where
  fails_on :
      (attempt : ℕ)
      → FailsBefore verify attempt
      → (verify attempt).success ≡ false
      → FailsBefore verify (suc attempt)
  fails_on attempt before e i l m = elim (Bool-cases (ltb i attempt)) [
    | inl f ↦ before i l (ground (arith, f))
    | inr f ↦ let same : i ≡ attempt = ground (arith, f, m) in rw same e
  ]

  verify_from-IsOutcome :
      (max_attempts left attempt : ℕ) (cost : CostInfo) (events : List VerificationEvent)
      → attempt + left ≡ max_attempts
      → FailsBefore verify attempt
      → suc (starts events) ≡ attempt
      → suc (retries events) ≡ attempt
      → let (o, told) = verify_from verify execute max_attempts left attempt cost events in
        IsOutcome verify max_attempts o told
  unfolding verify_from
  verify_from-IsOutcome max_attempts zero attempt cost events l before s r =
      if_cases
        (λ (p : VerificationOutcome × List VerificationEvent).
          IsOutcome verify max_attempts p.0 p.1)
        (verify attempt).success
        (λ e. record {
          failed_before = before;
          last = e;
          within = omega (arith, l);
          exhausted = λ f. absurd (ground (arith, f));
          told = λ f. absurd (ground (arith, f));
          announced = s;
          retried = r;
        })
        (λ e. record {
          failed_before = before;
          last = e;
          within = omega (arith, l);
          exhausted = λ f. omega (arith, l);
          told = λ f. refl;
          announced = s;
          retried = r;
        })
  verify_from-IsOutcome max_attempts (suc left) attempt cost events l before s r =
      if_cases
        (λ (p : VerificationOutcome × List VerificationEvent).
          IsOutcome verify max_attempts p.0 p.1)
        (verify attempt).success
        (λ e. record {
          failed_before = before;
          last = e;
          within = omega (arith, l);
          exhausted = λ f. absurd (ground (arith, f));
          told = λ f. absurd (ground (arith, f));
          announced = s;
          retried = r;
        })
        (λ e.
          verify_from-IsOutcome max_attempts left (suc attempt) _ _ (omega (arith, l))
            (fails_on attempt before e) (omega (arith, s)) (omega (arith, r)))

  -- With at least one attempt allowed, the loop ends at the first attempt that succeeds, or at the
  -- last one allowed if none does, with the message of that one; it announces each attempt, and each
  -- but the last one as retried.
  pub run_verification_loop-IsOutcome :
      (left : ℕ)
      → let (o, told) = run_verification_loop verify execute (suc left) in
        IsOutcome verify (suc left) o told
  unfolding run_verification_loop
  run_verification_loop-IsOutcome left =
      verify_from-IsOutcome (suc left) left 1 zero_cost [] (omega arith)
        (λ i l m. absurd (omega (arith, l, m))) refl refl
