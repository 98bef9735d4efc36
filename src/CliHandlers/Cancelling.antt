-- ===== src/CliHandlers/Cancelling.antt =====
-- The open questions of a run that ends (packages/worker/src/orchestrator/cli-handlers.ts).
use codevil.Base.{
  ◌≡◌, refl, true, false, String, List, [], ◌∷◌, arith, ap, ◌∙◌, sym, str_eq, str_eq_iff, map,
  is_empty, inl, inr, Bool-cases,
}
use codevil.Connection.{live_sandbox_sockets}
use codevil.Host.{Host, SandboxMessage, QuestionRow, emit, send_to_sandbox}
use codevil.QuestionsStore.{list_open_question_ids}
use codevil.CliHandlers.{cancel_row, send_cancellations, cancel_open_questions}

-- The messages that cancel `ids`, the last one first.
abbrev pub cancellations : String → List String → List SandboxMessage → List SandboxMessage
cancellations reason [] sent = sent
cancellations reason (id ∷ ids) sent =
    cancellations reason ids (SandboxMessage.ask_question_cancelled id reason ∷ sent)

none_left :
    (run_id reason : String) (qs : List QuestionRow)
    → list_open_question_ids (map (cancel_row run_id reason) qs) run_id ≡ []
unfolding list_open_question_ids cancel_row
none_left run_id reason [] = refl
none_left run_id reason (q ∷ qs) = ground (arith, none_left run_id reason qs)

others_open :
    (run_id reason other : String) (qs : List QuestionRow)
    → str_eq run_id other ≡ false
    → list_open_question_ids (map (cancel_row run_id reason) qs) other
      ≡ list_open_question_ids qs other
unfolding list_open_question_ids cancel_row
others_open run_id reason other [] e = refl
others_open run_id reason other (q ∷ qs) e = ground (
  arith,
  others_open run_id reason other qs e,
  str_eq_iff q.run_id run_id,
  str_eq_iff q.run_id other,
  str_eq_iff run_id other,
)

send-kept :
    (m : SandboxMessage) (h : Host)
    → ((send_to_sandbox m h).questions ≡ h.questions)
      × ((send_to_sandbox m h).sockets ≡ h.sockets)
      × (is_empty (live_sandbox_sockets h.sockets) ≡ false
          → (send_to_sandbox m h).sent ≡ m ∷ h.sent)
unfolding send_to_sandbox emit
send-kept m h = ground arith

send_cancellations-questions :
    (reason : String) (ids : List String) (h : Host)
    → (send_cancellations reason ids h).questions ≡ h.questions
unfolding send_cancellations
send_cancellations-questions reason [] h = refl
send_cancellations-questions reason (id ∷ ids) h =
    send_cancellations-questions reason ids _ ∙ (send-kept _ h).0

send_cancellations-sent :
    (reason : String) (ids : List String) (h : Host)
    → is_empty (live_sandbox_sockets h.sockets) ≡ false
    → (send_cancellations reason ids h).sent ≡ cancellations reason ids h.sent
unfolding send_cancellations
send_cancellations-sent reason [] h live = refl
send_cancellations-sent reason (id ∷ ids) h live =
    let kept = send-kept (SandboxMessage.ask_question_cancelled id reason) h in
    send_cancellations-sent reason ids _ (rw (kept.1) live)
    ∙ ap (cancellations reason ids) (kept.2 live)

-- What cancelling the questions of a run leaves.
pub record IsCancelled (run_id reason : String) (h g : Host) : Type 0 where
  pub none_open : list_open_question_ids g.questions run_id ≡ []
  pub others :
      (other : String)
      → str_eq run_id other ≡ false
      → list_open_question_ids g.questions other ≡ list_open_question_ids h.questions other
  pub told :
      is_empty (live_sandbox_sockets h.sockets) ≡ false
      → g.sent ≡ cancellations reason (list_open_question_ids h.questions run_id) h.sent

no_ids : (ids : List String) → is_empty ids ≡ true → ids ≡ []
no_ids ids e = ground arith

-- Once the questions of a run are cancelled, none of that run is open, those of every other run
-- are open as before, and an attached sandbox is told of each question that was open, in order.
pub cancel_open_questions-IsCancelled :
    (run_id reason : String) (h : Host)
    → IsCancelled run_id reason h (cancel_open_questions run_id reason h)
unfolding cancel_open_questions
cancel_open_questions-IsCancelled run_id reason h =
    elim (Bool-cases (is_empty (list_open_question_ids h.questions run_id))) [
      | inl e ↦
          let empty = no_ids (list_open_question_ids h.questions run_id) e in
          rw (e, cancel_open_questions)
            (record {
              none_open = empty;
              others = λ other d. refl;
              told = λ live. ap (λ ids. cancellations reason ids h.sent) (sym empty);
            })
      | inr e ↦
          rw (e, cancel_open_questions)
            (record {
              none_open =
                  ap (λ qs. list_open_question_ids qs run_id)
                    (send_cancellations-questions reason _ _)
                  ∙ none_left run_id reason h.questions;
              others = λ other d.
                  ap (λ qs. list_open_question_ids qs other)
                    (send_cancellations-questions reason _ _)
                  ∙ others_open run_id reason other h.questions d;
              told = λ live. send_cancellations-sent reason _ _ live;
            })
    ]
