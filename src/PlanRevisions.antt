-- ===== src/PlanRevisions.antt =====
-- packages/worker/src/orchestrator/plan-revisions-store.ts and plan-revision-actions.ts: the plans
-- of a run, one for each round, and the annotations on them.
pub mod Locking
use codevil.Base.{
  ℕ, zero, suc, ◌≡◌, Bool, true, false, not, ◌&&◌, ◌||◌, String, List, [], ◌∷◌, ◌++◌, Option, none,
  some, map, keep, find, is_some, is_empty, str_eq, ◌==◌, if◌then◌else◌, sort_by, get_or_else,
}
use codevil.Text.{concat}
use codevil.Session.{awaiting_approval, is_state, state_name}
use codevil.Host.{
  Host, Event, PlanRevision, AnnotationRow, AnnotationReply, AnnotationThread, AnnotationStatus,
  open_annotation, withdrawn, consumed, emit, fail_with,
}

abbrev pub is_revision : String → ℕ → PlanRevision → Bool
is_revision run_id round r = str_eq r.run_id run_id && r.round == round

-- The run and the round are the primary key, so the first row found is the only one.
unfoldable pub load_plan_revision : List PlanRevision → String → ℕ → Option PlanRevision
load_plan_revision revisions run_id round = find (is_revision run_id round) revisions

unfoldable pub load_annotation_replies : List AnnotationReply → String → List AnnotationReply
load_annotation_replies replies annotation_id =
    sort_by (λ r. r.created_at) (keep (λ r. str_eq r.annotation_id annotation_id) replies)

abbrev pub is_open_annotation : AnnotationStatus → Bool
is_open_annotation open_annotation = true
is_open_annotation withdrawn = false
is_open_annotation consumed = false

abbrev pub is_open_on : String → ℕ → AnnotationRow → Bool
is_open_on run_id round a =
    str_eq a.revision_run_id run_id && a.revision_round == round && is_open_annotation a.status

-- Rows whose anchor cannot be read are passed over.
unfoldable pub to_threads : List AnnotationReply → List AnnotationRow → List AnnotationThread
to_threads replies [] = []
to_threads replies (a ∷ as') =
    let rest = to_threads replies as' in
    elim a.anchor [
      | none ↦ rest
      | some anchor ↦
          record {
            id = a.id;
            run_id = a.revision_run_id;
            round = a.revision_round;
            anchor = anchor;
            author = a.author;
            comment = a.comment;
            status = a.status;
            created_at = a.created_at;
            replies = load_annotation_replies replies a.id;
          }
          ∷ rest
    ]

unfoldable pub load_open_annotation_threads : Host → String → ℕ → List AnnotationThread
load_open_annotation_threads h run_id round =
    to_threads h.replies
      (sort_by (λ a. a.created_at) (keep (is_open_on run_id round) h.annotations))

unfoldable pub load_annotation : List AnnotationRow → String → Option AnnotationRow
load_annotation annotations id = find (λ a. str_eq a.id id) annotations

consume : String → ℕ → AnnotationRow → AnnotationRow
consume run_id round a = if is_open_on run_id round a then record a { status = consumed } else a

unfoldable pub consume_open_annotations : String → ℕ → Host → Host
unfolding consume
consume_open_annotations run_id round h =
    if is_empty ids
    then h
    else emit (Event.annotations_consumed run_id round ids)
        (record h { annotations = map (consume run_id round) h.annotations })
  where
    ids : List String
    ids = map (λ t. t.id) (load_open_annotation_threads h run_id round)

consume_previous : String → ℕ → Host → Host
consume_previous run_id zero h = h
consume_previous run_id (suc round) h = consume_open_annotations run_id round h

-- `INSERT OR REPLACE`: the row of that key goes, the new one joins the end.
unfoldable pub put_revision : PlanRevision → List PlanRevision → List PlanRevision
put_revision r revisions = keep (λ old. not (is_revision r.run_id r.round old)) revisions ++ r ∷ []

unfoldable pub freeze_plan_revision : String → ℕ → String → Host → Host
unfolding consume_previous
freeze_plan_revision run_id round markdown h0 =
    let h = consume_previous run_id round h0 in
    let row : PlanRevision = record {
      run_id = run_id;
      round = round;
      markdown = markdown;
      locked_at = none;
      frozen_at = h.now;
    } in
    emit (Event.plan_revision_frozen run_id round (some markdown) false h.now)
      (record h { revisions = put_revision row h.revisions })

-- `COALESCE(locked_at, now)`.
unfoldable pub lock_row : String → ℕ → ℕ → PlanRevision → PlanRevision
lock_row run_id round now r =
    if is_revision run_id round r
    then record r { locked_at = some (get_or_else r.locked_at now) }
    else r

unfoldable pub lock_plan_revision : String → ℕ → Host → Host
lock_plan_revision run_id round h =
    emit (Event.plan_revision_frozen run_id round none true h.now)
      (record h { revisions = map (lock_row run_id round h.now) h.revisions })

abbrev pub refuse : String → Host → Host × Bool
refuse message h = (fail_with message h, false)

check_revision : Option PlanRevision → Host → Host × Bool
check_revision none h = refuse "Plan revision not found." h
check_revision (some r) h =
    if is_some r.locked_at then refuse "Plan revision is locked." h else (h, true)

unfoldable pub ensure_annotatable_revision : String → ℕ → Host → Host × Bool
unfolding check_revision
ensure_annotatable_revision run_id round h = elim h.meta.active_run [
  | none ↦ refuse "Annotations are only available on plan-first runs." h
  | some run ↦
      if not run.plan_first
      then refuse "Annotations are only available on plan-first runs." h
      else if not (is_state h.meta.state awaiting_approval)
      then refuse (concat ("Cannot annotate in state: " ∷ state_name h.meta.state ∷ [])) h
      else if not (str_eq run.id run_id) || not (h.meta.refinement_round == round)
      then refuse "Annotation target is not the active plan revision." h
      else check_revision (load_plan_revision h.revisions run_id round) h
]
