-- ===== src/QuestionsStore.antt =====
-- packages/worker/src/orchestrator/questions-store.ts: reads of the table of questions, and
-- packages/worker/src/question-policy.ts: who may answer one. Rows that a schema would refuse are
-- not kept.
use codevil.Base.{
  Bool, true, false, ◌&&◌, String, List, [], ◌∷◌, Option, none, some, map, keep, find, str_eq,
  if◌then◌else◌,
}
use codevil.Text.{concat, truthy}
use codevil.Host.{
  QuestionRow, QuestionStatus, open_question, answered, cancelled, AnswerableBy, decider, anyone,
  assigned,
}

abbrev pub is_open : QuestionStatus → Bool
is_open open_question = true
is_open answered = false
is_open cancelled = false

abbrev pub is_answered : QuestionStatus → Bool
is_answered open_question = false
is_answered answered = true
is_answered cancelled = false

-- `request_id` is the primary key, so the first row found is the only one.
unfoldable pub load_question : List QuestionRow → String → Option QuestionRow
load_question questions request_id = find (λ q. str_eq q.request_id request_id) questions

abbrev pub is_open_of : String → QuestionRow → Bool
is_open_of run_id q = str_eq q.run_id run_id && is_open q.status

unfoldable pub list_open_question_ids : List QuestionRow → String → List String
list_open_question_ids questions run_id =
    map (λ q. q.request_id) (keep (is_open_of run_id) questions)

unfoldable pub question_answer_denied_message : QuestionRow → String
question_answer_denied_message question = elim question.answerable_by [
  | assigned ↦ elim question.assigned_to [
    | none ↦ "Only the assigned participant can answer this question."
    | some p ↦
        if str_eq p.name ""
        then "Only the assigned participant can answer this question."
        else concat ("Only " ∷ p.name ∷ " can answer this question." ∷ [])
  ]
  | anyone ↦ "Only session participants can answer this question."
  | decider ↦ "Only the session creator can answer this question."
]

pub data AuthRole : Type 0 where
  owner admin developer viewer : AuthRole

abbrev pub may_decide : Option AuthRole → Bool
may_decide none = false
may_decide (some owner) = true
may_decide (some admin) = true
may_decide (some developer) = false
may_decide (some viewer) = false

unfoldable pub is_decider : Option String → Option String → Option AuthRole → Bool
is_decider user_id creator_id role = elim (truthy user_id) [
  | none ↦ false
  | some user ↦ elim (truthy creator_id) [
    | none ↦ may_decide role
    | some creator ↦ str_eq creator user
  ]
]

unfoldable pub can_answer_question :
    AnswerableBy → Option String → Option String → Option AuthRole → Option String → Bool
unfolding is_decider
can_answer_question anyone user_id creator_id role assigned_to_id = true
can_answer_question assigned user_id creator_id role assigned_to_id = elim (truthy user_id) [
  | none ↦ false
  | some user ↦ elim (truthy assigned_to_id) [ none ↦ false | some assignee ↦ str_eq user assignee ]
]
can_answer_question decider user_id creator_id role assigned_to_id =
    is_decider user_id creator_id role
