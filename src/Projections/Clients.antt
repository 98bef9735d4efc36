-- ===== src/Projections/Clients.antt =====
-- The snapshots of a session as the state of its event log, and the snapshot of a client that joins
-- (packages/worker/src/orchestrator/event-log.ts, packages/worker/src/orchestrator/event-log-limits.ts,
-- packages/shared/src/projections.ts).
use Prim.Native.String.{◌++◌}
use codevil.Base.{
  ℕ, ◌*◌, ◌≡◌, refl, sym, ap, ◌∙◌, Bool, String, List, [], ◌∷◌, Option, none, some, map, leb,
  if◌then◌else◌,
}
use codevil.Text.{text_length, text_take}
use codevil.Host.{Event}
use codevil.Snapshots.{History, cap_session_snapshot_for_storage, prepare_snapshot_checkpoint}
use codevil.EventLog.{Projection, Checkpoint, LogRow, SessionEventLog, join, after}
use codevil.EventLog.Faithful.{IsCore}
use codevil.EventLog.Rows.{replay, upto}
use codevil.EventLog.Joining.{IsLog, received, replay_start, joined-IsCurrent}
use codevil.Projections.{SessionSnapshot, apply_to_session_snapshot, empty_session_snapshot}
use codevil.Projections.Replay.{display_free, apply-display_free}

abbrev pub max_preview_output_line_chars : ℕ
max_preview_output_line_chars = 4 * 1024

unfoldable pub shorten_line : String → String
shorten_line line =
    if leb (text_length line) max_preview_output_line_chars
    then line
    else text_take max_preview_output_line_chars line ++ "… [truncated]"

unfoldable pub shorten_output : SessionSnapshot → SessionSnapshot
shorten_output s = record s {
  preview = record s.preview { output_lines = map shorten_line s.preview.output_lines };
}

-- `size` is the length of a snapshot's JSON in bytes.
unfoldable pub cap_snapshot : (SessionSnapshot → ℕ) → SessionSnapshot → SessionSnapshot
cap_snapshot size s =
    let short = shorten_output s in
    record short {
      history =
          cap_session_snapshot_for_storage (λ h. size (record short { history = h })) s.history;
    }

unfoldable pub can_persist_snapshot : (SessionSnapshot → ℕ) → SessionSnapshot → Bool
can_persist_snapshot size s =
    let short = shorten_output s in
    (prepare_snapshot_checkpoint (λ h. size (record short { history = h })) s.history).can_persist

module _ (record_history : Event → ℕ → History → History) where
  -- The rows of the log, newest first, applied to a snapshot at the times of a clock.
  unfoldable pub apply_rows : (LogRow → ℕ) → SessionSnapshot → List LogRow → SessionSnapshot
  apply_rows clock s [] = s
  apply_rows clock s (r ∷ rows) =
      apply_to_session_snapshot record_history (apply_rows clock s rows) r.id r.event (clock r)

  -- A client takes the frame that it is sent in place of its snapshot, and applies the rows.
  unfoldable pub client_receive :
      (LogRow → ℕ)
      → SessionSnapshot
      → Option (Checkpoint SessionSnapshot) × List LogRow
      → SessionSnapshot
  client_receive clock s (none, rows) = apply_rows clock s rows
  client_receive clock s (some frame, rows) = apply_rows clock frame.state rows

  -- `parse` reads a stored snapshot back.
  unfoldable pub session_projection :
      (SessionSnapshot → ℕ)
      → (SessionSnapshot → Option SessionSnapshot)
      → Projection SessionSnapshot
  session_projection size parse = record {
    empty = empty_session_snapshot;
    apply = λ id e now s. apply_to_session_snapshot record_history s id e now;
    cap = cap_snapshot size;
    can_persist = can_persist_snapshot size;
    parse = parse;
  }

  abbrev step : ℕ → Event → SessionSnapshot → SessionSnapshot
  step id e s = display_free (apply_to_session_snapshot record_history s 0 e 0)

  cap-display_free :
      (size : SessionSnapshot → ℕ) (s : SessionSnapshot)
      → display_free (cap_snapshot size s) ≡ display_free s
  unfolding display_free cap_snapshot shorten_output
  cap-display_free size s = refl

  apply_rows-replay :
      (clock : LogRow → ℕ) (s : SessionSnapshot) (rows : List LogRow)
      → display_free (apply_rows clock s rows) ≡ replay step (display_free s) rows
  unfolding apply_rows replay
  apply_rows-replay clock s [] = refl
  apply_rows-replay clock s (r ∷ rows) =
      apply-display_free record_history (apply_rows clock s rows) r.id r.event (clock r)
      ∙ ap (step r.id r.event) (apply_rows-replay clock s rows)

  client_receive-received :
      (clock : LogRow → ℕ) (s : SessionSnapshot)
      (sent : Option (Checkpoint SessionSnapshot) × List LogRow)
      → display_free (client_receive clock s sent)
        ≡ received display_free step (display_free s) sent
  unfolding client_receive received
  client_receive-received clock s (none, rows) = apply_rows-replay clock s rows
  client_receive-received clock s (some frame, rows) = apply_rows-replay clock frame.state rows

  module _ (size : SessionSnapshot → ℕ) (parse : SessionSnapshot → Option SessionSnapshot)
      (read_back : (s t : SessionSnapshot)
        → parse s ≡ some t
        → display_free t ≡ display_free s) where
    abbrev projection : Projection SessionSnapshot
    projection = session_projection size parse

    projection-IsCore : IsCore projection display_free step
    unfolding session_projection
    projection-IsCore = record {
      apply_core = λ id e now s. apply-display_free record_history s id e now;
      cap_core = cap-display_free size;
      parse_core = read_back;
    }

    -- In any log of a new session that reads back what it stores, a client whose snapshot shows the
    -- events up to the cursor from which it joins shows all events that were appended when it has
    -- taken what it is sent, apart from cursor, history and the output of the preview: whichever
    -- snapshots were stored, restored, shortened or pruned away, and whatever the clocks, if no
    -- event was appended to a log that was created anew from an older snapshot and if the rows
    -- after the start of its replay are still there.
    pub client-IsCurrent :
        (history : List LogRow) (log : SessionEventLog SessionSnapshot) (cursor : ℕ)
        (clock clock' : LogRow → ℕ) (s : SessionSnapshot)
        → IsLog projection history log
        → display_free s
          ≡ display_free (apply_rows clock' empty_session_snapshot (upto cursor history))
        → after (replay_start projection cursor log) log.rows
          ≡ after (replay_start projection cursor log) history
        → display_free (client_receive clock s (join projection cursor log))
          ≡ display_free (apply_rows clock' empty_session_snapshot history)
    unfolding session_projection
    client-IsCurrent history log cursor clock clock' s i known there =
        client_receive-received clock s (join projection cursor log)
        ∙ joined-IsCurrent projection display_free step projection-IsCore history log cursor _ i
            (known ∙ apply_rows-replay clock' empty_session_snapshot (upto cursor history)) there
        ∙ sym (apply_rows-replay clock' empty_session_snapshot history)
