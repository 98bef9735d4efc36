-- ===== src/QuestionAnswer/Once.antt =====
-- A first answer and later ones (packages/worker/src/orchestrator/question-answer.ts).
use codevil.Base.{
  ℕ, ◌≡◌, refl, true, false, List, [], ◌∷◌, some, String, map, str_eq, arith, is_empty, ◌∙◌,
}
use codevil.Room.{ParticipantIdentity}
use codevil.Connection.{live_sandbox_sockets}
use codevil.Host.{Host, QuestionRow, emit, send_to_sandbox, save_meta}
use codevil.Activity.{record_session_activity, mark_activity, arm_next_alarm, event}
use codevil.QuestionsStore.{load_question, is_open, is_answered}
use codevil.QuestionAnswer.{
  AnswerQuestionInput, AcceptedAnswer, Selection, accepted, selected, answer_row, accept_answer,
  accepted_answer, settle_selection, answer_open, apply_question_answer, existing_answer,
  labels_for_answer, readable_participant, validate_selection,
}

-- A participant whose identity is read back as it was written.
abbrev pub IsReadable : ParticipantIdentity → Type 0
IsReadable p = readable_participant p ≡ some p

find_answered :
    (input : AnswerQuestionInput) (s : Selection) (now : ℕ) (qs : List QuestionRow)
    (q : QuestionRow)
    → load_question qs input.request_id ≡ some q
    → load_question (map (answer_row input s now) qs) input.request_id
      ≡ some (answer_row input s now q)
unfolding load_question answer_row
find_answered input s now [] q e = ground arith
find_answered input s now (x ∷ xs) q e = ground (arith, find_answered input s now xs q)

mark_activity-questions : (h : Host) → (mark_activity h).questions ≡ h.questions
unfolding mark_activity save_meta
mark_activity-questions h = ground arith

arm_next_alarm-questions : (now : ℕ) (h : Host) → (arm_next_alarm now h).questions ≡ h.questions
unfolding arm_next_alarm
arm_next_alarm-questions now h = ground arith

record_activity-questions : (h : Host) → (record_session_activity event h).questions ≡ h.questions
unfolding record_session_activity
record_activity-questions h =
    ground (arith, mark_activity-questions h, arm_next_alarm-questions h.now (mark_activity h))

accept_answer-questions :
    (q : QuestionRow) (input : AnswerQuestionInput) (s : Selection) (h : Host)
    → (accept_answer q input s h).questions ≡ map (answer_row input s h.now) h.questions
unfolding accept_answer emit send_to_sandbox
accept_answer-questions q input s h = record_activity-questions _ ∙ ground arith

accepts :
    (q : QuestionRow) (s : Selection) (input : AnswerQuestionInput) (h : Host)
    → load_question h.questions input.request_id ≡ some q
    → is_open q.status ≡ true
    → is_empty (live_sandbox_sockets h.sockets) ≡ false
    → validate_selection q input ≡ selected s
    → apply_question_answer input h ≡ (accept_answer q input s h, accepted_answer q input s)
unfolding apply_question_answer answer_open settle_selection
accepts q s input h e o live v = rw (e, apply_question_answer) (ground (arith, o, answer_open_lem))
  where
    answer_open_lem : answer_open q input h ≡ (accept_answer q input s h, accepted_answer q input s)
    answer_open_lem = rw (live, answer_open) (rw (v, answer_open) refl)

loaded_id :
    (qs : List QuestionRow) (id : String) (q : QuestionRow)
    → load_question qs id ≡ some q
    → str_eq q.request_id id ≡ true
unfolding load_question
loaded_id [] id q e = ground arith
loaded_id (x ∷ xs) id q e = ground (arith, loaded_id xs id q)

-- The answer that a question holds after it was given.
abbrev pub held_answer : QuestionRow → AnswerQuestionInput → Selection → AcceptedAnswer
held_answer q input s = record {
  already = true;
  question = q.question;
  selected_labels = labels_for_answer q s.option_ids s.freeform;
  answered_by = input.actor;
}

existing_answer-answer_row :
    (q : QuestionRow) (input : AnswerQuestionInput) (s : Selection) (now : ℕ)
    → str_eq q.request_id input.request_id ≡ true
    → is_open q.status ≡ true
    → IsReadable input.actor
    → (is_answered (answer_row input s now q).status ≡ true)
      × (existing_answer (answer_row input s now q) ≡ accepted (held_answer q input s))
unfolding answer_row existing_answer labels_for_answer
existing_answer-answer_row q input s now i o r =
    rw (i, answer_row) (rw (o, answer_row) (refl, rw r refl))

-- A valid answer to an open question, given while the sandbox is attached by a participant with an
-- identity and a name, is accepted; any later answer to that question, whatever it says and whoever
-- gives it, changes nothing and is told the question, the labels and the participant of the first.
pub answered_once :
    (q : QuestionRow) (s : Selection) (input later : AnswerQuestionInput) (h : Host)
    → load_question h.questions input.request_id ≡ some q
    → is_open q.status ≡ true
    → is_empty (live_sandbox_sockets h.sockets) ≡ false
    → validate_selection q input ≡ selected s
    → IsReadable input.actor
    → later.request_id ≡ input.request_id
    → let (g, result) = apply_question_answer input h in
      (result ≡ accepted_answer q input s)
      × (apply_question_answer later g ≡ (g, accepted (held_answer q input s)))
unfolding apply_question_answer
answered_once q s input later h e o live v r same =
    rw (accepts q s input h e o live v) (refl, repeated)
  where
    g : Host
    g = accept_answer q input s h

    found : load_question g.questions later.request_id ≡ some (answer_row input s h.now q)
    found =
        rw (same, accept_answer-questions q input s h) (find_answered input s h.now h.questions q e)

    repeated : apply_question_answer later g ≡ (g, accepted (held_answer q input s))
    repeated =
        let held = existing_answer-answer_row q input s h.now (loaded_id h.questions _ q e) o r in
        rw (found, apply_question_answer) (rw (held.0) (rw (held.1) refl))
