-- ===== src/Projections/Replay.antt =====
-- Events that a client receives twice, and the parts of a snapshot that are shown without its
-- history (packages/shared/src/projection-reducers.ts, packages/shared/src/projections.ts).
use codevil.Base.{
  ℕ, ◌≡◌, refl, Bool, true, false, String, List, [], ◌∷◌, ◌++◌, Option, some, any, map, keep,
  str_eq, str_eq_refl, if◌then◌else◌, arith, inl, inr, Bool-cases, Option-cases, ==_iff,
}
use codevil.Text.{truthy}
use codevil.Session.{SessionState}
use codevil.Room.{ParticipantIdentity}
use codevil.Host.{Event, AnnotationThread, AnnotationReply, Phase}
use codevil.Snapshots.{History}
use codevil.Projections.{
  SessionSnapshot, PlanRevisionState, PreviewState, QuestionViewModel, is_new_revision, next_phase,
  apply_to_session_snapshot,
}
use codevil.Projections.Reducers.{
  infer_phase, infer_status_phase, infer_plan_approved, select_app, first_key, reduce_preview_state,
  reduce_plan_revision, reduce_participants, upsert_participant, reduce_annotations,
  reduce_questions, update_first, add_reply, answer_view, has_id, is_thread, is_question, is_reply,
}

module _ {ℓ} {A : Type ℓ} where
  any-append : (p : A → Bool) (xs : List A) (a : A) → p a ≡ true → any p (xs ++ a ∷ []) ≡ true
  any-append p [] a e = ground (arith, e)
  any-append p (x ∷ xs) a e = ground (arith, any-append p xs a e)

  add_once :
      (p : A → Bool) (xs : List A) (a : A)
      → p a ≡ true
      → let add = λ (ys : List A). if any p ys then ys else ys ++ a ∷ [] in add (add xs) ≡ add xs
  add_once p xs a e = elim (Bool-cases (any p xs)) [
    | inl f ↦ ground (arith, f)
    | inr f ↦ ground (arith, f, any-append p xs a e)
  ]

  -- A change that keeps the property and is done after one time.
  update_first_twice :
      (p : A → Bool) (f : A → A) (xs : List A)
      → ((x : A) → p (f x) ≡ p x)
      → ((x : A) → f (f x) ≡ f x)
      → update_first p f (update_first p f xs) ≡ update_first p f xs
  update_first_twice p f [] k d = refl
  update_first_twice p f (x ∷ xs) k d = elim (Bool-cases (p x)) [
    | inl e ↦ ground (arith, e, k x, d x)
    | inr e ↦ ground (arith, e, update_first_twice p f xs k d)
  ]

  map_twice : (f : A → A) (xs : List A) → ((x : A) → f (f x) ≡ f x) → map f (map f xs) ≡ map f xs
  map_twice f [] d = refl
  map_twice f (x ∷ xs) d = ground (arith, d x, map_twice f xs d)

  keep_twice : (p : A → Bool) (xs : List A) → keep p (keep p xs) ≡ keep p xs
  keep_twice p [] = refl
  keep_twice p (x ∷ xs) = ground (arith, keep_twice p xs)

reduce_questions_twice :
    (e : Event) (qs : List QuestionViewModel)
    → reduce_questions (reduce_questions qs e) e ≡ reduce_questions qs e
unfolding reduce_questions answer_view
reduce_questions_twice (Event.question_raised id run q options by at) qs =
    add_once (is_question id) qs _ (str_eq_refl id)
reduce_questions_twice (Event.question_assigned id to by at) qs =
    update_first_twice _ _ qs (λ q. refl) (λ q. refl)
reduce_questions_twice (Event.question_answered id options freeform by at) qs =
    update_first_twice _ _ qs (λ q. ground arith) (λ q. ground arith)
reduce_questions_twice _ qs = ground arith

add_reply_twice :
    (r : AnnotationReply) (t : AnnotationThread) → add_reply r (add_reply r t) ≡ add_reply r t
unfolding add_reply
add_reply_twice r t = elim (Bool-cases (any (is_reply r.id) t.replies)) [
  | inl e ↦ ground (arith, e)
  | inr e ↦ ground (arith, e, any-append (is_reply r.id) t.replies r (str_eq_refl r.id))
]

reduce_annotations_twice :
    (e : Event) (ts : List AnnotationThread)
    → reduce_annotations (reduce_annotations ts e) e ≡ reduce_annotations ts e
unfolding reduce_annotations add_reply
reduce_annotations_twice (Event.annotation_created a) ts =
    add_once (is_thread a.id) ts a (str_eq_refl a.id)
reduce_annotations_twice (Event.annotation_replied id r) ts =
    update_first_twice _ _ ts (λ t. ground arith) (add_reply_twice r)
reduce_annotations_twice (Event.annotation_withdrawn id by at) ts =
    update_first_twice _ _ ts (λ t. refl) (λ t. refl)
reduce_annotations_twice (Event.annotations_consumed run round ids) ts =
    map_twice _ ts (λ t. ground arith)
reduce_annotations_twice _ ts = ground arith

reduce_plan_revision_twice :
    (e : Event) (r : Option PlanRevisionState)
    → reduce_plan_revision (reduce_plan_revision r e) e ≡ reduce_plan_revision r e
unfolding reduce_plan_revision
reduce_plan_revision_twice (Event.plan_revision_frozen run round markdown locked at) r =
    ground arith
reduce_plan_revision_twice _ r = ground arith

any-update_first :
    (p : ParticipantIdentity) (ps : List ParticipantIdentity)
    → any (has_id p.id) (update_first (has_id p.id) (λ _. p) ps) ≡ any (has_id p.id) ps
any-update_first p [] = refl
any-update_first p (q ∷ ps) = ground (arith, any-update_first p ps, str_eq_refl p.id)

update_first_same :
    (p : ParticipantIdentity) (ps : List ParticipantIdentity)
    → update_first (has_id p.id) (λ _. p) (update_first (has_id p.id) (λ _. p) ps)
      ≡ update_first (has_id p.id) (λ _. p) ps
update_first_same p [] = refl
update_first_same p (q ∷ ps) = ground (arith, update_first_same p ps, str_eq_refl p.id)

update_first-append :
    (p : ParticipantIdentity) (ps : List ParticipantIdentity)
    → any (has_id p.id) ps ≡ false
    → update_first (has_id p.id) (λ _. p) (ps ++ p ∷ []) ≡ ps ++ p ∷ []
update_first-append p [] e = ground (arith, str_eq_refl p.id)
update_first-append p (q ∷ ps) e = ground (arith, e, update_first-append p ps)

reduce_participants_twice :
    (e : Event) (ps : List ParticipantIdentity)
    → reduce_participants (reduce_participants ps e) e ≡ reduce_participants ps e
unfolding reduce_participants upsert_participant
reduce_participants_twice (Event.participant_joined p) ps =
    elim (Bool-cases (any (has_id p.id) ps)) [
      | inl e ↦ ground (arith, e, any-update_first p ps, update_first_same p ps)
      | inr e ↦
          ground
            (arith, e, any-append (has_id p.id) ps p (str_eq_refl p.id), update_first-append p ps e)
    ]
reduce_participants_twice (Event.participant_left p) ps = keep_twice _ ps
reduce_participants_twice _ ps = ground arith

infer_phase_twice :
    (e : Event) (c : Option SessionState) (d : SessionState)
    → infer_phase e c ≡ some d
    → infer_phase e (some d) ≡ some d
unfolding infer_phase infer_status_phase
infer_phase_twice (Event.status message by) c d i = ground (arith, i)
infer_phase_twice (Event.phase Phase.planning m) c d i = ground (arith, i)
infer_phase_twice (Event.phase Phase.executing m) c d i = ground (arith, i)
infer_phase_twice _ c d i = ground (arith, i)

next_phase_twice :
    (e : Event) (c : Option SessionState) → next_phase e (next_phase e c) ≡ next_phase e c
unfolding next_phase
next_phase_twice e c = elim (Option-cases (infer_phase e c)) [
  | inl n ↦ ground (arith, n)
  | inr (d, n) ↦ ground (arith, n, infer_phase_twice e c d n)
]

infer_plan_approved_twice :
    (e : Event) (b : Bool)
    → infer_plan_approved e (infer_plan_approved e b) ≡ infer_plan_approved e b
unfolding infer_plan_approved
infer_plan_approved_twice (Event.phase Phase.planning m) b = ground arith
infer_plan_approved_twice (Event.phase Phase.executing m) b = ground arith
infer_plan_approved_twice _ b = ground arith

not_new_again :
    (e : Event) (r : Option PlanRevisionState)
    → is_new_revision (reduce_plan_revision r e) e ≡ false
unfolding is_new_revision reduce_plan_revision
not_new_again (Event.plan_revision_frozen run round markdown locked at) r =
    elim (Option-cases (truthy markdown)) [
      | inl e ↦ ground (arith, e)
      | inr (text, e) ↦ ground (arith, e, str_eq_refl run, (==_iff round round).1 refl)
    ]
not_new_again _ r = ground arith

-- A preview without its output.
abbrev pub quiet : PreviewState → PreviewState
quiet s = record s { output_lines = [] }

any-first : (k : String) (ks : List String) → any (λ j. str_eq j k) (k ∷ ks) ≡ true
any-first k ks = ground (arith, str_eq_refl k)

select_first : (apps : List String) → select_app (first_key apps) apps ≡ first_key apps
unfolding select_app
select_first [] = refl
select_first (k ∷ ks) = ground (arith, any-first k ks)

truthy_twice : (o : Option String) (k : String) → truthy o ≡ some k → truthy (some k) ≡ some k
truthy_twice o k e = ground (arith, e)

select_app_twice :
    (selected : Option String) (apps : List String)
    → select_app (select_app selected apps) apps ≡ select_app selected apps
unfolding select_app
select_app_twice selected apps = elim (Option-cases (truthy selected)) [
  | inl e ↦
      let chosen : select_app selected apps ≡ first_key apps = rw (e, select_app) refl in
      rw chosen (select_first apps)
  | inr (k, e) ↦ elim (Bool-cases (any (λ j. str_eq j k) apps)) [
    | inl f ↦
        let chosen : select_app selected apps ≡ some k = rw (e, f, select_app) refl in
        let again : select_app (some k) apps ≡ some k =
          rw (truthy_twice selected k e, f, select_app) refl in
        rw (chosen, again) refl
    | inr f ↦
        let chosen : select_app selected apps ≡ first_key apps = rw (e, f, select_app) refl in
        rw chosen (select_first apps)
  ]
]

quiet-reduce :
    (s : PreviewState) (e : Event)
    → quiet (reduce_preview_state s e) ≡ quiet (reduce_preview_state (quiet s) e)
unfolding reduce_preview_state
quiet-reduce s (Event.status message by) = ground arith
quiet-reduce s _ = ground arith

quiet_twice :
    (s : PreviewState) (e : Event)
    → quiet (reduce_preview_state (reduce_preview_state s e) e) ≡ quiet (reduce_preview_state s e)
unfolding reduce_preview_state
quiet_twice s (Event.status message by) = ground arith
quiet_twice s (Event.preview_apps apps) = ground (arith, select_app_twice s.selected_app_key apps)
quiet_twice s _ = ground arith

-- A snapshot without its cursor, its history and the output of its preview.
unfoldable pub display_free : SessionSnapshot → SessionSnapshot
display_free s = record s {
  cursor = 0;
  history = record { messages = []; activity_log = [] };
  preview = quiet s.preview;
}

module _ (record_history : Event → ℕ → History → History) where
  pub apply-display_free :
      (s : SessionSnapshot) (cursor : ℕ) (e : Event) (now : ℕ)
      → display_free (apply_to_session_snapshot record_history s cursor e now)
        ≡ display_free (apply_to_session_snapshot record_history (display_free s) 0 e 0)
  unfolding display_free apply_to_session_snapshot
  apply-display_free s cursor e now = ground (arith, quiet-reduce s.preview e)

  -- An event that a client receives a second time, under any cursor and at any time, changes
  -- nothing of its snapshot but the cursor, the history and the lines of the preview's output.
  pub apply_twice :
      (s : SessionSnapshot) (cursor cursor' : ℕ) (e : Event) (now now' : ℕ)
      → let once = apply_to_session_snapshot record_history s cursor e now in
        display_free (apply_to_session_snapshot record_history once cursor' e now')
        ≡ display_free once
  unfolding display_free apply_to_session_snapshot
  apply_twice s cursor cursor' e now now' = ground (
    arith,
    not_new_again e s.plan_revision,
    next_phase_twice e s.session_phase,
    infer_plan_approved_twice e s.plan_approved,
    reduce_participants_twice e s.participants,
    quiet_twice s.preview e,
    reduce_plan_revision_twice e s.plan_revision,
    reduce_annotations_twice e (if is_new_revision s.plan_revision e then [] else s.annotations),
    reduce_questions_twice e s.questions,
  )
