-- ===== src/Tests/Components.antt =====
-- The theorems on the parts of a session, at concrete values.
use codevil.Base.{
  ℕ, ◌≡◌, ◌↔◌, ◌⊎◌, ◌≢◌, ◌≤◌, ◌<◌, ◌+◌, refl, true, false, String, [], ◌∷◌, ◌++◌, Option, none,
  some, length, map, min, max, get_or_else,
}
use codevil.Session.{
  ready, executing, failed, initializing, provisioning_sandbox, is_valid_transition,
  is_terminal_state,
}
use codevil.Session.Graph.{IsHistory, begin, move, has_ended, AllLive, IsHistory-AllLive}
use codevil.Room.{RoomState, SandboxState}
use codevil.Examples.{alice, bob, waiting, first_run, second_run, open_one, plan}
use codevil.Host.{
  Host, PendingPreviewAction, SandboxMessage, PlanRevision, DirectoryPatch, start, no_patch,
}
use codevil.AgentRuns.{start_run}
use codevil.AgentRuns.Fifo.{enqueue_all, finish_times, enqueue-finish_fifo}
use codevil.Connection.{live_sandbox_sockets, sandbox_connection_mode, reject, initialize}
use codevil.Connection.Laws.{sandbox_connection_lem}
use codevil.Alarm.{AlarmScheduleInput, next_alarm_deadline}
use codevil.Alarm.Deadlines.{IsFirst, next_alarm_deadline-IsFirst, idle_pause-retried}
use codevil.Lifecycle.{
  IdlePauseInput, should_pause_sandbox, sandbox_lease_ms, min_sandbox_lease_ms,
  sandbox_past_due_retry_ms,
}
use codevil.Lifecycle.Bounds.{IsIdleSandbox, HasIdled, should_pause_iff, sandbox_lease-bounds}
use codevil.PlanRevisions.{
  load_plan_revision, lock_plan_revision, freeze_plan_revision, ensure_annotatable_revision,
  is_revision,
}
use codevil.PlanRevisions.Locking.{now_on, locking, freezing, locked_until_frozen, freeze-load}
use codevil.QuestionAnswer.{
  AnswerQuestionInput, Selection, selected, accepted, apply_question_answer, accepted_answer,
  validate_selection, unique, unique_from, check_selection, ids_at, readable_participant,
}
use codevil.QuestionAnswer.Choice.{IsAllowed, validate_selection-IsAllowed}
use codevil.QuestionAnswer.Once.{held_answer, answered_once}
use codevil.QuestionsStore.{developer, load_question}
use codevil.Preview.{flush_pending_preview_action}
use codevil.Preview.Replay.{takes, IsReplayOf, flush-once}
use codevil.Teardown.{fail_session}
use codevil.Teardown.Outstanding.{HasEnded, fail_session-HasEnded}
use codevil.CliHandlers.{cancel_open_questions}
use codevil.CliHandlers.Cancelling.{IsCancelled, cancel_open_questions-IsCancelled}
use codevil.ClientMessages.{Memberships, web_socket_message, approve}
use codevil.ClientMessages.Access.{IsMember, web_socket_message-IsMember}

abbrev answer : AnswerQuestionInput
answer = record {
  request_id = "q_1";
  actor = bob;
  option_indexes = some (some 1 ∷ []);
  option_ids = none;
  freeform = none;
}

abbrev late_answer : AnswerQuestionInput
late_answer = record {
  request_id = "q_1";
  actor = alice;
  option_indexes = none;
  option_ids = some ("pg" ∷ []);
  freeform = none;
}

abbrev mysql : Selection
mysql = record { option_ids = "my" ∷ []; freeform = none }

mysql_valid : validate_selection open_one answer ≡ selected mysql
unfolding validate_selection unique unique_from check_selection ids_at
mysql_valid = refl

answered_once_example :
    ((apply_question_answer answer waiting).1 ≡ accepted_answer open_one answer mysql)
    × (apply_question_answer late_answer (apply_question_answer answer waiting).0
        ≡ ((apply_question_answer answer waiting).0, accepted (held_answer open_one answer mysql)))
unfolding load_question live_sandbox_sockets readable_participant
answered_once_example =
    answered_once open_one mysql answer late_answer waiting refl refl refl mysql_valid refl refl

validate_selection-IsAllowed_example : IsAllowed open_one mysql
validate_selection-IsAllowed_example =
    validate_selection-IsAllowed open_one answer mysql mysql_valid

fail_session-HasEnded_example :
    (is_terminal_state waiting.meta.state ≡ true
      → fail_session "Sandbox expired." "sandbox expired" waiting ≡ (waiting, false))
    × (is_terminal_state waiting.meta.state ≡ false
        → HasEnded "Sandbox expired." waiting
            (fail_session "Sandbox expired." "sandbox expired" waiting).0
          × ((fail_session "Sandbox expired." "sandbox expired" waiting).1 ≡ true))
fail_session-HasEnded_example = fail_session-HasEnded "Sandbox expired." "sandbox expired" waiting

cancel_open_questions_example :
    IsCancelled "run_1" "run failed" waiting (cancel_open_questions "run_1" "run failed" waiting)
cancel_open_questions_example = cancel_open_questions-IsCancelled "run_1" "run failed" waiting

-- The plan is locked, locked again and the next one frozen.
abbrev moved_on : Host
moved_on =
    freeze_plan_revision "run_1" 2 "2. Test it."
      (lock_plan_revision "run_1" 1 (lock_plan_revision "run_1" 1 waiting))

locked_until_frozen_example :
    (load_plan_revision moved_on.revisions "run_1" 1
      ≡ some (record plan { locked_at = some (get_or_else plan.locked_at waiting.now) }))
    × ((ensure_annotatable_revision "run_1" 1 moved_on).1 ≡ false)
unfolding load_plan_revision
locked_until_frozen_example =
    locked_until_frozen "run_1" 1 plan waiting moved_on refl
      (freezing "run_1" 2 "2. Test it." (locking "run_1" 1 now_on) refl)

freeze-load_example :
    let g = freeze_plan_revision "run_1" 2 "2. Test it." waiting in
    let frozen : PlanRevision = record {
      run_id = "run_1";
      round = 2;
      markdown = "2. Test it.";
      locked_at = none;
      frozen_at = waiting.now;
    } in
    (load_plan_revision g.revisions "run_1" 2 ≡ some frozen)
    × ((other : String) (other_round : ℕ)
        → is_revision other other_round frozen ≡ false
        → load_plan_revision g.revisions other other_round
          ≡ load_plan_revision waiting.revisions other other_round)
freeze-load_example = freeze-load "run_1" 2 "2. Test it." waiting

abbrev developers : Memberships
developers user = some developer

web_socket_message-IsMember_example :
    (web_socket_message developers approve bob (some "usr_bob") "run_3" waiting ≡ waiting)
    ⊎ IsMember developers approve (some "usr_bob")
web_socket_message-IsMember_example =
    web_socket_message-IsMember developers approve bob (some "usr_bob") "run_3" waiting

abbrev schedule : AlarmScheduleInput
schedule = record {
  now = 900_000;
  state = ready;
  created_at = 0;
  max_time_ms = some 3_600_000;
  sandbox_disconnected_at = none;
  presentation_retry_at = none;
  workspace_cache_retry_at = none;
  idle_pause_at = some 800_000;
  lease_renew_at = some 300_000;
}

next_alarm_deadline-IsFirst_example : IsFirst schedule (next_alarm_deadline schedule)
next_alarm_deadline-IsFirst_example = next_alarm_deadline-IsFirst schedule

idle_pause-retried_example :
    (t : ℕ) × (next_alarm_deadline schedule ≡ some t)
    × (900_000 < t)
    × (t ≤ max 800_000 (900_000 + sandbox_past_due_retry_ms))
unfolding is_terminal_state
idle_pause-retried_example = idle_pause-retried schedule 800_000 refl refl

abbrev idle : IdlePauseInput
idle = record {
  now = some 700_000;
  pause_supported = true;
  session_state = ready;
  paused = false;
  sandbox_connected = true;
  disconnected_at = none;
  has_active_run = false;
  queued_runs = 0;
  open_questions = 0;
  last_activity_at = 5_000;
  max_idle_ms = some 600_000;
}

should_pause_iff_example :
    (should_pause_sandbox idle ≡ true)
    ↔ (IsIdleSandbox idle × HasIdled 5_000 (some 600_000) (some 700_000))
should_pause_iff_example = should_pause_iff idle

sandbox_lease-bounds_example :
    let lease = sandbox_lease_ms 1_000 0 (some 3_600_000) 900_000 in
    (lease ≤ 900_000)
    × (min 900_000 min_sandbox_lease_ms ≤ lease)
    × ((max_time : ℕ)
        → some 3_600_000 ≡ some max_time
        → 1_000 + min_sandbox_lease_ms ≤ 0 + max_time
        → 1_000 + lease ≤ 0 + max_time)
sandbox_lease-bounds_example = sandbox_lease-bounds 1_000 0 900_000 (some 3_600_000)

enqueue-finish_fifo_example :
    finish_times
      (length ((first_run ∷ []) ++ (second_run ∷ [])))
      (enqueue_all (record { active = none; queue = first_run ∷ [] }) (second_run ∷ []))
    ≡ map start_run ((first_run ∷ []) ++ (second_run ∷ []))
enqueue-finish_fifo_example = enqueue-finish_fifo none (first_run ∷ []) (second_run ∷ [])

flush-once_example :
    let (g, flushed) = flush_pending_preview_action waiting in
    let action : PendingPreviewAction = record { action_type = start; app_key = none } in
    (flushed ≡ takes waiting)
    × (takes waiting ≡ false → g ≡ waiting)
    × (takes waiting ≡ true
        → (g.saved ≡ g.meta)
          × ((m : SandboxMessage) × (g.sent ≡ m ∷ waiting.sent) × IsReplayOf waiting.meta action m)
          × (flush_pending_preview_action g ≡ (g, false)))
flush-once_example = flush-once waiting (record { action_type = start; app_key = none }) refl

abbrev not_lost : Option ℕ
not_lost = none

sandbox_connection_example :
    ((sandbox_connection_mode ready not_lost 1 ≡ reject) ↔ (
      (is_terminal_state ready ≡ true)
      ⊎ ((ready ≢ provisioning_sandbox) × (not_lost ≡ none) × ((ready ≡ initializing) ⊎ (1 ≤ 1)))))
    × ((sandbox_connection_mode ready not_lost 1 ≡ initialize) ↔ (ready ≡ provisioning_sandbox))
sandbox_connection_example = sandbox_connection_lem ready not_lost 1

abbrev cloned : DirectoryPatch
cloned = record no_patch {
  room_state = some RoomState.ready;
  sandbox_state = some SandboxState.ready;
}

abbrev idle_again : DirectoryPatch
idle_again = record no_patch { active_run_state = some none }

failed-IsHistory : IsHistory (failed ∷ executing ∷ ready ∷ [])
unfolding is_valid_transition
failed-IsHistory = move (move begin refl) refl

IsHistory-AllLive_example :
    AllLive (executing ∷ ready ∷ [])
    × (has_ended failed ≡ false → IsHistory (failed ∷ failed ∷ executing ∷ ready ∷ []))
    × (is_terminal_state failed ≡ has_ended failed)
IsHistory-AllLive_example = IsHistory-AllLive failed (executing ∷ ready ∷ []) failed-IsHistory
