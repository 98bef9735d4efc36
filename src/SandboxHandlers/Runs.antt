-- ===== src/SandboxHandlers/Runs.antt =====
-- The clone of the repository, the turns of a run, its verification and its pull request.
use codevil.Base.{
  ℕ, ◌-◌, Bool, true, not, ◌||◌, String, [], ◌∷◌, Option, none, some, str_eq, if◌then◌else◌,
  get_or_else,
}
use codevil.Text.{concat, decimal}
use codevil.Session.{
  provisioning_sandbox, cloning_repo, ready, executing, verifying, retrying, creating_pr, is_state,
}
use codevil.Room.{AgentRun, AgentRunState, RoomState, SandboxState}
use codevil.Host.{
  Host, Event, SandboxMessage, CostInfo, with_meta, save_meta, emit, send_to_sandbox, transition,
  track_cost, update_directory, no_patch,
}
use codevil.Activity.{record_activity, arm_next_alarm}
use codevil.Coordinator.{
  set_active_run_state, complete_active_run, fail_active_run_and_return_ready,
}
use codevil.CliHandlers.{cancel_open_questions, drain_queued_agent_work_if_ready, only_if}

unfoldable pub handle_sandbox_clone_started : Host → Host
handle_sandbox_clone_started h =
    if not (is_state h.meta.state provisioning_sandbox)
    then h
    else only_if (transition cloning_repo h)
        (update_directory (record no_patch { sandbox_state = some SandboxState.cloning }))

-- `enqueueWorkspaceCacheJob` of workspace-cache-job.ts: a row that is there stays.
unfoldable pub enqueue_workspace_cache_job : Host → Host
enqueue_workspace_cache_job h =
    arm_next_alarm (h.now - 1)
      (record h { workspace_cache_job = some (get_or_else h.workspace_cache_job (some h.now)) })

unfoldable pub enqueue_cache_job_if_supported : Host → Host
enqueue_cache_job_if_supported h =
    if h.capabilities.workspace_cache then enqueue_workspace_cache_job h else h

unfoldable pub announce_ready : Host → Host
announce_ready h = drain_queued_agent_work_if_ready (
    enqueue_cache_job_if_supported (
      emit (Event.room_ready h.meta.repo) (
        emit (Event.status "Repository cloned. Session is ready." none) (
          record_activity (
            update_directory
              (record no_patch {
                room_state = some RoomState.ready;
                sandbox_state = some SandboxState.ready;
              })
              h)))))

unfoldable pub handle_sandbox_clone_complete : Host → Host
handle_sandbox_clone_complete h =
    if not (is_state h.meta.state cloning_repo)
    then h
    else only_if (transition ready h) announce_ready

-- `act` on the active run, if the session executes and that is the run meant.
unfoldable pub on_executing : String → (AgentRun → Host → Host) → Host → Host
on_executing run_id act h = elim h.meta.active_run [
  | none ↦ h
  | some run ↦
      if not (is_state h.meta.state executing) || not (str_eq run.id run_id) then h else act run h
]

unfoldable pub handle_sandbox_agent_turn_complete : String → String → CostInfo → Host → Host
handle_sandbox_agent_turn_complete run_id response cost = on_executing run_id λ run h.
    complete_active_run none (emit (Event.agent_response run.id response cost) (track_cost cost h))

unfoldable pub handle_sandbox_agent_turn_failed : String → String → Host → Host
handle_sandbox_agent_turn_failed run_id message =
    on_executing run_id
      λ _ h. fail_active_run_and_return_ready message (cancel_open_questions run_id "run failed" h)

unfoldable pub set_verification_attempts : ℕ → Host → Host
set_verification_attempts attempt h =
    save_meta (with_meta (record h.meta { verification_attempts = attempt }) h)

started_message : ℕ → ℕ → String
started_message attempt max_attempts =
    concat
      ("Verification started (attempt " ∷ decimal attempt ∷ "/" ∷ decimal max_attempts ∷ ")." ∷ [])

unfoldable pub begin_verification : ℕ → ℕ → Host → Host
unfolding started_message
begin_verification attempt max_attempts h =
    only_if (transition verifying (set_verification_attempts attempt h)) λ g.
      emit (Event.status (started_message attempt max_attempts) none)
        (set_active_run_state AgentRunState.verifying g)

unfoldable pub handle_sandbox_verification_started : ℕ → ℕ → Host → Host
handle_sandbox_verification_started attempt max_attempts h =
    if is_state h.meta.state executing || is_state h.meta.state retrying
    then begin_verification attempt max_attempts h
    else if is_state h.meta.state verifying
    then set_verification_attempts attempt h
    else h

retrying_message : ℕ → ℕ → String
retrying_message attempt max_attempts = concat (
    "Verification failed on attempt "
    ∷ decimal attempt
    ∷ "/"
    ∷ decimal max_attempts
    ∷ ". Asking agent to fix it."
    ∷ [])

unfoldable pub handle_sandbox_verification_retrying : ℕ → ℕ → Host → Host
unfolding retrying_message
handle_sandbox_verification_retrying attempt max_attempts h =
    if not (is_state h.meta.state verifying)
    then h
    else only_if (transition retrying (set_verification_attempts attempt h)) λ g.
      emit (Event.status (retrying_message attempt max_attempts) none)
        (set_active_run_state AgentRunState.executing g)

unfoldable pub handle_sandbox_verification_failed : ℕ → String → Host → Host
handle_sandbox_verification_failed attempts last_error h =
    if is_state h.meta.state verifying
    then fail_active_run_and_return_ready last_error
        (emit (Event.verification_failed attempts last_error) h)
    else h

abbrev pub run_prompt : Host → String
run_prompt h = elim h.meta.active_run [ none ↦ h.meta.prompt | some run ↦ run.text ]

-- The branch is `codevil/`, the slug of the prompt, a dash and the time.
unfoldable pub ask_for_pull_request : Host → Host
ask_for_pull_request h =
    send_to_sandbox
      (SandboxMessage.create_pr (run_prompt h) h.now (concat ("Implement " ∷ run_prompt h ∷ []))
        (run_prompt h) (get_or_else h.meta.latest_plan (run_prompt h)))
      h

unfoldable pub handle_sandbox_execution_complete : CostInfo → Host → Host
handle_sandbox_execution_complete cost h0 =
    let h = track_cost cost h0 in
    if not (is_state h.meta.state verifying)
    then h
    else only_if (transition creating_pr h) λ g. ask_for_pull_request (
        emit (Event.status "Execution completed. Creating pull request." none)
          (set_active_run_state AgentRunState.publishing g))

-- `handleBranchPushed` asks for a pull request only in this state, and then waits for it. The session
-- stays as it is until then, and its state is not looked at again.
unfoldable pub awaits_pull_request : Host → Bool
awaits_pull_request h = is_state h.meta.state creating_pr

-- What follows when the pull request was made, or could not be.
unfoldable pub settle_pull_request : Option String → Host → Host
settle_pull_request (some url) = complete_active_run (some url)
settle_pull_request none = fail_active_run_and_return_ready "Unable to create the pull request."

-- The token's hash and the address, which the handler makes first, are arguments.
unfoldable pub handle_sandbox_preview_ready : String → String → String → ℕ → Host → Host
handle_sandbox_preview_ready token_hash url command port h =
    emit (Event.preview_ready url command port) (
      save_meta (
        with_meta
          (record h.meta {
            preview_token_hash = some token_hash;
            preview_url = some url;
            preview_port = some port;
            preview_active = true;
          })
          h))
