-- ===== src/Tests/Sandbox.antt =====
-- The theorems on the code in the sandbox: the agent's socket and the verification loop.
use codevil.Base.{ℕ, ◌≡◌, refl, true, false, [], ◌∷◌, none, some, leb}
use codevil.AgentSocket.{
  Client, new_client, connect, start, send, on_open, on_close, on_reconnect_timer,
  schedule_reconnect, clear_connection_timers, schedule_heartbeat, flush_outbox,
}
use codevil.AgentSocket.Sound.{
  IsSound, IsRun, fresh, call, started, sending, opened, closed, fired, run-IsSound,
}
use codevil.VerificationLoop.{
  VerificationResult, run_verification_loop, zero_cost, pnpm, Directory, detect_package_manager,
  search_directories, parse_declared_manager, before_at, manager_named, manager_of_locks,
}
use codevil.VerificationLoop.Attempts.{IsOutcome, run_verification_loop-IsOutcome}

-- A client whose first socket was lost with a value waiting, and opened again.
abbrev again : Client
again = on_open 1 (
    on_reconnect_timer
      (send "b" (on_close 0 (send "a" (on_open 0 (start (new_client 1_000 30_000)))))))

again-IsRun : IsRun 1_000 30_000 ("a" ∷ "b" ∷ []) again
unfolding new_client start connect send on_open on_close schedule_reconnect clear_connection_timers
    schedule_heartbeat flush_outbox
again-IsRun =
    call
      (call
        (call (call (call (call (call fresh started) (opened 0)) (sending "a")) (closed 0))
          (sending "b"))
        (fired refl))
      (opened 1)

run-IsSound_example : IsSound ("a" ∷ "b" ∷ []) again
run-IsSound_example = run-IsSound 1_000 30_000 ("a" ∷ "b" ∷ []) again again-IsRun

-- The third attempt succeeds.
abbrev third : ℕ → VerificationResult
third attempt = record { success = leb 3 attempt; command = "npm test"; output = "1 failed" }

run_verification_loop-IsOutcome_example :
    let (o, told) = run_verification_loop third (λ prompt. zero_cost) 5 in IsOutcome third 5 o told
run_verification_loop-IsOutcome_example =
    run_verification_loop-IsOutcome third (λ prompt. zero_cost) 4

abbrev bare : Directory
bare = record {
  package_manager_field = none;
  has_pnpm_lock = false;
  has_package_lock = false;
  has_npm_shrinkwrap = false;
  has_yarn_lock = false;
  has_bun_lock = false;
  has_bun_lockb = false;
}

abbrev locked : Directory
locked = record bare { has_yarn_lock = true; package_manager_field = some "pnpm@9.1.0" }

inherited_test : detect_package_manager none none (bare ∷ locked ∷ []) ≡ some pnpm
unfolding detect_package_manager search_directories parse_declared_manager before_at manager_named
    manager_of_locks
inherited_test = refl
