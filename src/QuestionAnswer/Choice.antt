-- ===== src/QuestionAnswer/Choice.antt =====
-- Selections that pass the checks of packages/worker/src/orchestrator/question-answer.ts.
use codevil.Base.{
  ◌&&◌, ltb, ◌==◌, ◌||◌, ◌≤◌, ◌≡◌, ◌⊎◌, inl, inr, refl, Bool, true, false, not, List, [], ◌∷◌,
  Option, none, some, String, str_eq, str_eq_iff, str_eq_refl, All, any, length, is_some, arith,
  Bool-cases, subst, sym, ap, ◌∙◌,
}
use codevil.Host.{QuestionRow}
use codevil.QuestionAnswer.{
  AnswerQuestionInput, Selection, selected, invalid, includes, unique_from, unique, option_ids_of,
  check_selection, validate_selection, requested_ids,
}

abbrev pub AllDistinct : List String → Type 0
AllDistinct [] = Unit {0}
AllDistinct (id ∷ ids) = (includes ids id ≡ false) × AllDistinct ids

differs :
    (seen : List String) (id y : String)
    → includes seen id ≡ false
    → includes seen y ≡ true
    → str_eq id y ≡ false
differs seen id y new e = elim (Bool-cases (str_eq id y)) [
  | inr f ↦ f
  | inl same ↦ absurd (ground (arith, sym new ∙ ap (includes seen) ((str_eq_iff id y).0 same) ∙ e))
]

either : (b : Bool) → b || true ≡ true
either b = ground arith

neither : (a b : Bool) → a ≡ false → b ≡ false → a || b ≡ false
neither a b e f = ground arith

unique_from-unseen :
    (seen ids : List String) (y : String)
    → includes seen y ≡ true
    → includes (unique_from seen ids) y ≡ false
unfolding unique_from
unique_from-unseen seen [] y e = refl
unique_from-unseen seen (id ∷ ids) y e = elim (Bool-cases (includes seen id)) [
  | inl seen_id ↦ rw (seen_id, unique_from) (unique_from-unseen seen ids y e)
  | inr new ↦
      rw (new, unique_from)
        (neither _ _ (differs seen id y new e)
          (unique_from-unseen (id ∷ seen) ids y (rw e (either (str_eq id y)))))
]

unique_from-AllDistinct : (seen ids : List String) → AllDistinct (unique_from seen ids)
unfolding unique_from
unique_from-AllDistinct seen [] = tt
unique_from-AllDistinct seen (id ∷ ids) = elim (Bool-cases (includes seen id)) [
  | inl seen_id ↦ rw (seen_id, unique_from) (unique_from-AllDistinct seen ids)
  | inr new ↦
      rw (new, unique_from)
        (
          unique_from-unseen (id ∷ seen) ids id (rw (str_eq_refl id) refl),
          unique_from-AllDistinct (id ∷ seen) ids,
        )
]

none_unknown :
    (known ids : List String)
    → any (λ id. not (includes known id)) ids ≡ false
    → All (λ id. includes known id ≡ true) ids
none_unknown known [] e = tt
none_unknown known (id ∷ ids) e = (ground arith, none_unknown known ids (ground arith))

-- A selection that answers the question as it was asked.
pub record IsAllowed (q : QuestionRow) (s : Selection) : Type 0 where
  pub known : All (λ id. includes (option_ids_of q.options) id ≡ true) s.option_ids
  pub distinct : AllDistinct s.option_ids
  pub single : q.allow_multiple ≡ false → length s.option_ids ≤ 1
  pub offered_text : q.allow_freeform ≡ false → s.freeform ≡ none
  pub nonempty : (1 ≤ length s.option_ids) ⊎ (is_some s.freeform ≡ true)

passed :
    (q : QuestionRow) (ids : List String) (text : Option String) (s : Selection)
    → check_selection q ids text ≡ selected s
    → (any (λ id. not (includes (option_ids_of q.options) id)) ids ≡ false)
      × (not q.allow_multiple && ltb 1 (length ids) ≡ false)
      × (is_some text && not q.allow_freeform ≡ false)
      × (length ids == 0 && not (is_some text) ≡ false)
      × (s ≡ record { option_ids = ids; freeform = text })
unfolding check_selection
passed q ids text s e = ground arith

check_selection-IsAllowed :
    (q : QuestionRow) (ids : List String) (text : Option String) (s : Selection)
    → AllDistinct ids
    → check_selection q ids text ≡ selected s
    → IsAllowed q s
unfolding check_selection
check_selection-IsAllowed q ids text s d e =
    let p = passed q ids text s e in
    subst (IsAllowed q) (sym (p.4)) (record {
      known = none_unknown (option_ids_of q.options) ids (p.0);
      distinct = d;
      single = λ m. ground (arith, m, p.1);
      offered_text = λ m. ground (arith, m, p.2);
      nonempty = ground (arith, p.3);
    })

settled-IsAllowed :
    (q : QuestionRow) (text : Option String) (requested : Option (List String)) (s : Selection)
    → elim requested [
      | none ↦ invalid "Invalid question option"
      | some ids ↦ check_selection q (unique ids) text
    ]
      ≡ selected s
    → IsAllowed q s
unfolding unique
settled-IsAllowed q text none s e = absurd (ground arith)
settled-IsAllowed q text (some ids) s e =
    check_selection-IsAllowed q _ text s (unique_from-AllDistinct [] ids) e

-- A selection that passes the checks names only options of the question, each at most once, only
-- one unless the question takes several, has free text only where that is offered, and says
-- something.
pub validate_selection-IsAllowed :
    (q : QuestionRow) (input : AnswerQuestionInput) (s : Selection)
    → validate_selection q input ≡ selected s
    → IsAllowed q s
unfolding validate_selection
validate_selection-IsAllowed q input s e = settled-IsAllowed q _ (requested_ids q input) s e
