-- ===== src/CliHandlers/Annotating.antt =====
-- Comments on a plan that waits for approval.
use codevil.Base.{ℕ, not, String, [], ◌∷◌, ◌++◌, none, some, map, str_eq, if◌then◌else◌}
use codevil.Text.{trim}
use codevil.Room.{ParticipantIdentity}
use codevil.Host.{
  Host, Event, AnnotationAnchor, AnnotationRow, AnnotationReply, AnnotationThread, open_annotation,
  withdrawn, emit, fail_with,
}
use codevil.PlanRevisions.{ensure_annotatable_revision, load_annotation, is_open_annotation}

unfoldable pub insert_annotation :
    String → String → ℕ → AnnotationAnchor → String → ParticipantIdentity → Host → Host
insert_annotation id run_id round anchor comment actor h =
    emit (Event.annotation_created thread) (record h { annotations = h.annotations ++ row ∷ [] })
  where
    row : AnnotationRow
    row = record {
      id = id;
      revision_run_id = run_id;
      revision_round = round;
      anchor = some anchor;
      author = actor;
      comment = trim comment;
      status = open_annotation;
      created_at = h.now;
    }

    thread : AnnotationThread
    thread = record {
      id = id;
      run_id = run_id;
      round = round;
      anchor = anchor;
      author = actor;
      comment = trim comment;
      status = open_annotation;
      created_at = h.now;
      replies = [];
    }

unfoldable pub handle_annotation_create :
    String → ℕ → AnnotationAnchor → String → ParticipantIdentity → String → Host → Host
handle_annotation_create run_id round anchor comment actor id h0 =
    let (h, annotatable) = ensure_annotatable_revision run_id round h0 in
    if annotatable then insert_annotation id run_id round anchor comment actor h else h

-- What replying and withdrawing ask first: `act` runs on an open annotation of the active plan.
unfoldable pub on_open_annotation : String → String → (AnnotationRow → Host → Host) → Host → Host
on_open_annotation thread_id closed act h0 = elim (load_annotation h0.annotations thread_id) [
  | none ↦ fail_with "Annotation not found." h0
  | some a ↦
      let (h, annotatable) = ensure_annotatable_revision a.revision_run_id a.revision_round h0 in
      if not annotatable
      then h
      else if not (is_open_annotation a.status)
      then fail_with closed h
      else act a h
]

unfoldable pub insert_reply : String → String → ParticipantIdentity → String → Host → Host
insert_reply thread_id comment actor id h =
    emit (Event.annotation_replied thread_id reply) (record h { replies = h.replies ++ reply ∷ [] })
  where
    reply : AnnotationReply
    reply = record {
      id = id;
      annotation_id = thread_id;
      author = actor;
      comment = trim comment;
      created_at = h.now;
    }

unfoldable pub handle_annotation_reply :
    String → String → ParticipantIdentity → String → Host → Host
handle_annotation_reply thread_id comment actor id =
    on_open_annotation thread_id "Cannot reply to a closed annotation."
      λ _. insert_reply thread_id comment actor id

unfoldable pub withdraw_row : String → AnnotationRow → AnnotationRow
withdraw_row thread_id a = if str_eq a.id thread_id then record a { status = withdrawn } else a

unfoldable pub withdraw_own : String → ParticipantIdentity → AnnotationRow → Host → Host
withdraw_own thread_id actor a h =
    if not (str_eq a.author.id actor.id)
    then fail_with "Only the annotation author can withdraw it." h
    else emit (Event.annotation_withdrawn thread_id actor h.now)
        (record h { annotations = map (withdraw_row thread_id) h.annotations })

unfoldable pub handle_annotation_withdraw : String → ParticipantIdentity → Host → Host
handle_annotation_withdraw thread_id actor =
    on_open_annotation thread_id "Cannot withdraw a closed annotation."
      (withdraw_own thread_id actor)
