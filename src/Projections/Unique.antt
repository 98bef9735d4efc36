-- ===== src/Projections/Unique.antt =====
-- What every snapshot is like that is folded from events
-- (packages/shared/src/projection-reducers.ts, packages/shared/src/projections.ts).
use codevil.Base.{
  ℕ, zero, suc, ◌-◌, ◌≤◌, ◌≡◌, refl, sym, ◌∙◌, Bool, true, false, ◌||◌, String, List, [], ◌∷◌, ◌++◌,
  any, map, keep, length, drop, str_eq, str_eq_iff, arith, inl, inr, Bool-cases, Option-cases,
  if_rule,
}
use codevil.Room.{ParticipantIdentity}
use codevil.Host.{Event, AnnotationThread}
use codevil.Snapshots.{History, take_last}
use codevil.Projections.{
  SessionSnapshot, PreviewState, QuestionViewModel, is_new_revision, apply_to_session_snapshot,
}
use codevil.Projections.Reducers.{
  reduce_preview_state, reduce_participants, upsert_participant, reduce_annotations,
  reduce_questions, update_first, add_reply, answer_view, has_id, is_thread, is_question,
  output_line, preview_output_limit, empty_preview_state,
}

str_eq_sym : (s t : String) → str_eq s t ≡ str_eq t s
str_eq_sym s t = elim (Bool-cases (str_eq s t)) [
  | inl e ↦ e ∙ sym ((str_eq_iff t s).1 (sym ((str_eq_iff s t).0 e)))
  | inr e ↦ elim (Bool-cases (str_eq t s)) [
    | inl f ↦ (str_eq_iff s t).1 (sym ((str_eq_iff t s).0 f)) ∙ sym f
    | inr f ↦ e ∙ sym f
  ]
]

module _ {ℓ} {A : Type ℓ} (id : A → String) where
  abbrev pub among : String → List A → Bool
  among s xs = any (λ y. str_eq (id y) s) xs

  -- No identity stands twice.
  abbrev pub NoTwice : List A → Type 0
  NoTwice [] = Unit
  NoTwice (x ∷ xs) = (among (id x) xs ≡ false) × NoTwice xs

  among-append :
      (s : String) (xs : List A) (a : A) → among s (xs ++ a ∷ []) ≡ (among s xs || str_eq (id a) s)
  among-append s [] a = ground arith
  among-append s (x ∷ xs) a = ground (arith, among-append s xs a)

  append-NoTwice :
      (xs : List A) (a : A) → among (id a) xs ≡ false → NoTwice xs → NoTwice (xs ++ a ∷ [])
  append-NoTwice [] a e n = (refl, tt)
  append-NoTwice (x ∷ xs) a e n = (
    ground (arith, n, e, among-append (id x) xs a, str_eq_sym (id x) (id a)),
    append-NoTwice xs a (ground (arith, e)) n.1,
  )

  among-update_first :
      (s : String) (p : A → Bool) (f : A → A) (xs : List A)
      → ((x : A) → p x ≡ true → id (f x) ≡ id x)
      → among s (update_first p f xs) ≡ among s xs
  among-update_first s p f [] k = refl
  among-update_first s p f (x ∷ xs) k = elim (Bool-cases (p x)) [
    | inl e ↦ rw (e, k x e) refl
    | inr e ↦ rw (e, among-update_first s p f xs k) refl
  ]

  update_first-NoTwice :
      (p : A → Bool) (f : A → A) (xs : List A)
      → ((x : A) → p x ≡ true → id (f x) ≡ id x)
      → NoTwice xs
      → NoTwice (update_first p f xs)
  update_first-NoTwice p f [] k n = tt
  update_first-NoTwice p f (x ∷ xs) k n = elim (Bool-cases (p x)) [
    | inl e ↦ rw (e, k x e) n
    | inr e ↦ rw e (among-update_first (id x) p f xs k ∙ n.0, update_first-NoTwice p f xs k n.1)
  ]

  among-keep :
      (s : String) (p : A → Bool) (xs : List A) → among s xs ≡ false → among s (keep p xs) ≡ false
  among-keep s p [] e = refl
  among-keep s p (x ∷ xs) e = ground (arith, e, among-keep s p xs)

  keep-NoTwice : (p : A → Bool) (xs : List A) → NoTwice xs → NoTwice (keep p xs)
  keep-NoTwice p [] n = tt
  keep-NoTwice p (x ∷ xs) n = elim (Bool-cases (p x)) [
    | inl e ↦ rw (e, NoTwice) (among-keep (id x) p xs n.0, keep-NoTwice p xs n.1)
    | inr e ↦ rw (e, NoTwice) (keep-NoTwice p xs n.1)
  ]

  among-map :
      (s : String) (f : A → A) (xs : List A)
      → ((x : A) → id (f x) ≡ id x)
      → among s (map f xs) ≡ among s xs
  among-map s f [] k = refl
  among-map s f (x ∷ xs) k = rw (k x, among-map s f xs k) refl

  map-NoTwice :
      (f : A → A) (xs : List A) → ((x : A) → id (f x) ≡ id x) → NoTwice xs → NoTwice (map f xs)
  map-NoTwice f [] k n = tt
  map-NoTwice f (x ∷ xs) k n = (rw (k x) (among-map (id x) f xs k ∙ n.0), map-NoTwice f xs k n.1)

abbrev pub participant_id : ParticipantIdentity → String
participant_id p = p.id

reduce_participants-NoTwice :
    (e : Event) (ps : List ParticipantIdentity)
    → NoTwice participant_id ps
    → NoTwice participant_id (reduce_participants ps e)
unfolding reduce_participants upsert_participant
reduce_participants-NoTwice (Event.participant_joined p) ps n =
    elim (Bool-cases (any (has_id p.id) ps)) [
      | inl e ↦ rw e (update_first-NoTwice _ _ _ ps (λ q m. sym ((str_eq_iff q.id p.id).0 m)) n)
      | inr e ↦ rw e (append-NoTwice _ ps p e n)
    ]
reduce_participants-NoTwice (Event.participant_left p) ps n = keep-NoTwice _ _ ps n
reduce_participants-NoTwice _ ps n = n

abbrev pub thread_id : AnnotationThread → String
thread_id t = t.id

reduce_annotations-NoTwice :
    (e : Event) (ts : List AnnotationThread)
    → NoTwice thread_id ts
    → NoTwice thread_id (reduce_annotations ts e)
unfolding reduce_annotations add_reply
reduce_annotations-NoTwice (Event.annotation_created a) ts n =
    elim (Bool-cases (any (is_thread a.id) ts)) [
      | inl e ↦ rw e n
      | inr e ↦ rw e (append-NoTwice _ ts a e n)
    ]
reduce_annotations-NoTwice (Event.annotation_replied id r) ts n =
    update_first-NoTwice _ _ _ ts (λ t m. ground arith) n
reduce_annotations-NoTwice (Event.annotation_withdrawn id by at) ts n =
    update_first-NoTwice _ _ _ ts (λ t m. refl) n
reduce_annotations-NoTwice (Event.annotations_consumed run round ids) ts n =
    map-NoTwice _ _ ts (λ t. ground arith) n
reduce_annotations-NoTwice _ ts n = n

abbrev pub question_id : QuestionViewModel → String
question_id q = q.request_id

reduce_questions-NoTwice :
    (e : Event) (qs : List QuestionViewModel)
    → NoTwice question_id qs
    → NoTwice question_id (reduce_questions qs e)
unfolding reduce_questions answer_view
reduce_questions-NoTwice (Event.question_raised id run q options by at) qs n =
    elim (Bool-cases (any (is_question id) qs)) [
      | inl e ↦ rw e n
      | inr e ↦ rw e (append-NoTwice _ qs _ e n)
    ]
reduce_questions-NoTwice (Event.question_assigned id to by at) qs n =
    update_first-NoTwice _ _ _ qs (λ q m. refl) n
reduce_questions-NoTwice (Event.question_answered id options freeform by at) qs n =
    update_first-NoTwice _ _ _ qs (λ q m. ground arith) n
reduce_questions-NoTwice _ qs n = n

length-drop : {A : Type 0} (n : ℕ) (xs : List A) → length (drop n xs) ≡ length xs - n
length-drop zero xs = omega arith
length-drop (suc n) [] = omega arith
length-drop (suc n) (x ∷ xs) = omega (arith, length-drop n xs)

length-take_last : {A : Type 0} (n : ℕ) (xs : List A) → length (take_last n xs) ≤ n
unfolding take_last
length-take_last n xs = omega (arith, length-drop (length xs - n) xs)

reduce_preview-output :
    (e : Event) (s : PreviewState)
    → length s.output_lines ≤ preview_output_limit
    → length (reduce_preview_state s e).output_lines ≤ preview_output_limit
unfolding reduce_preview_state empty_preview_state
reduce_preview-output (Event.status message by) s l = elim (Option-cases (output_line message)) [
  | inl e ↦ rw (e, reduce_preview_state) l
  | inr (line, e) ↦
      rw (e, reduce_preview_state)
        (length-take_last preview_output_limit (s.output_lines ++ line ∷ []))
]
reduce_preview-output Event.preview_stopped s l = omega arith
reduce_preview-output (Event.preview_starting command port) s l = omega arith
reduce_preview-output _ s l = l

-- No participant, thread or question is shown twice, and at most 20 lines of output.
pub record IsShowable (s : SessionSnapshot) : Type 0 where
  pub participants : NoTwice participant_id s.participants
  pub annotations : NoTwice thread_id s.annotations
  pub questions : NoTwice question_id s.questions
  pub output : length s.preview.output_lines ≤ preview_output_limit

module _ (record_history : Event → ℕ → History → History) where
  pub apply-IsShowable :
      (s : SessionSnapshot) (cursor : ℕ) (e : Event) (now : ℕ)
      → IsShowable s
      → IsShowable (apply_to_session_snapshot record_history s cursor e now)
  unfolding apply_to_session_snapshot
  apply-IsShowable s cursor e now i = record {
    participants = reduce_participants-NoTwice e s.participants i.participants;
    annotations =
        reduce_annotations-NoTwice e _
          (if_rule (NoTwice thread_id) (is_new_revision s.plan_revision e) tt i.annotations);
    questions = reduce_questions-NoTwice e s.questions i.questions;
    output = reduce_preview-output e s.preview i.output;
  }

  -- The snapshot that a list of events, each with its cursor and its time, is folded to.
  unfoldable pub fold_events : SessionSnapshot → List (ℕ × Event × ℕ) → SessionSnapshot
  fold_events s [] = s
  fold_events s ((cursor, e, now) ∷ es) =
      fold_events (apply_to_session_snapshot record_history s cursor e now) es

  -- Whatever events are applied to a snapshot in which no participant, annotation thread or
  -- question is shown twice and the preview has at most 20 lines of output, the result is such a
  -- snapshot too.
  pub fold_events-IsShowable :
      (s : SessionSnapshot) (es : List (ℕ × Event × ℕ))
      → IsShowable s
      → IsShowable (fold_events s es)
  unfolding fold_events
  fold_events-IsShowable s [] i = i
  fold_events-IsShowable s ((cursor, e, now) ∷ es) i =
      fold_events-IsShowable (apply_to_session_snapshot record_history s cursor e now) es
        (apply-IsShowable s cursor e now i)
