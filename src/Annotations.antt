-- ===== src/Annotations.antt =====
-- packages/worker/src/annotations.ts: what annotations become for the agent that consolidates them.
use codevil.Base.{String, List, [], ◌∷◌, ◌++◌, map, is_empty, str_eq, if◌then◌else◌}
use codevil.Text.{trim, concat, join}
use codevil.Host.{AnnotationThread, ConsolidationAnnotation}

unfoldable pub to_consolidation_annotations : List AnnotationThread → List ConsolidationAnnotation
to_consolidation_annotations = map λ thread. record {
  id = thread.id;
  anchored_quote = thread.anchor.text;
  source_line = thread.anchor.source_line;
  author_name = thread.author.name;
  comment = thread.comment;
  replies =
      map (λ reply. record { author_name = reply.author.name; body = reply.comment })
        thread.replies;
}

thread_part : AnnotationThread → String
thread_part thread =
    if str_eq replies ""
    then thread.comment
    else concat (thread.comment ∷ " Replies: " ∷ replies ∷ [])
  where
    replies : String
    replies = join " " (map (λ r. concat (r.author.name ∷ ": " ∷ r.comment ∷ [])) thread.replies)

unfoldable pub prose_brief_from_note : String → List AnnotationThread → String
unfolding thread_part
prose_brief_from_note feedback threads =
    if is_empty parts then "Refine the plan." else join "\n\n" parts
  where
    note : List String
    note = if str_eq (trim feedback) "" then [] else trim feedback ∷ []

    parts : List String
    parts = note ++ map thread_part threads
