-- ===== src/Tests/Projections.antt =====
-- The theorems on the event log and on snapshots, at concrete events.
use codevil.Base.{
  ℕ, ◌≡◌, refl, sym, ap, Bool, true, false, List, [], ◌∷◌, none, some, arith, get_or_else,
}
use codevil.Room.{ParticipantIdentity}
use codevil.Host.{Event}
use codevil.Snapshots.{History, prepare_snapshot_checkpoint}
use codevil.EventLog.{
  SessionEventLog, Projection, LogRow, join, restart, construct, insert_event, append_and_broadcast,
  hydrate_from_sql, after, take_checkpoint, should_compact_event_tail, persist_snapshot,
  store_checkpoint, send_snapshot_if_behind, schedule_snapshot_persist,
}
use codevil.EventLog.Rows.{upto, logged}
use codevil.EventLog.Joining.{IsLog, fresh, next, appended, restarted, restart_skips_tail}
use codevil.Projections.{SessionSnapshot, empty_session_snapshot, apply_to_session_snapshot}
use codevil.Projections.Clients.{
  session_projection, apply_rows, client_receive, client-IsCurrent, cap_snapshot,
  can_persist_snapshot,
}
use codevil.Projections.Reducers.{empty_preview_state}
use codevil.Projections.Replay.{display_free, apply_twice}
use codevil.Projections.Unique.{IsShowable, fold_events, fold_events-IsShowable}

abbrev ann : ParticipantIdentity
ann = record { id = "ann"; name = "Ann" }

abbrev bob : ParticipantIdentity
bob = record { id = "bob"; name = "Bob" }

-- No message or activity is made of an event, a snapshot has no size, and what is stored is read.
abbrev no_history : Event → ℕ → History → History
no_history e now h = h

abbrev no_size : SessionSnapshot → ℕ
no_size s = 0

abbrev projection : Projection SessionSnapshot
projection = session_projection no_history no_size some

abbrev clock : LogRow → ℕ
clock r = r.created_at

abbrev ann_event : Event
ann_event = Event.participant_joined ann

abbrev bob_event : Event
bob_event = Event.participant_joined bob

abbrev appended_to :
    Bool → Event → ℕ → SessionEventLog SessionSnapshot → SessionEventLog SessionSnapshot
appended_to stored e now log = (append_and_broadcast projection some (λ _. stored) true e now log).0

abbrev first_log : SessionEventLog SessionSnapshot
first_log = appended_to true ann_event 5 (construct projection [] 0 none)

abbrev second_log : SessionEventLog SessionSnapshot
second_log = appended_to false bob_event 6 first_log

abbrev restarted_log : SessionEventLog SessionSnapshot
restarted_log = restart projection second_log

abbrev two_rows : List LogRow
two_rows =
    record { id = 2; event = bob_event; created_at = 6 }
    ∷ record { id = 1; event = ann_event; created_at = 5 }
    ∷ []

restarted_log-IsLog : IsLog projection two_rows restarted_log
unfolding session_projection construct append_and_broadcast insert_event logged restart
    hydrate_from_sql after take_checkpoint should_compact_event_tail persist_snapshot
    can_persist_snapshot prepare_snapshot_checkpoint store_checkpoint send_snapshot_if_behind
    schedule_snapshot_persist
restarted_log-IsLog =
    next
      (next (next fresh (appended some (λ _. true) true ann_event 5 refl))
        (appended some (λ _. false) true bob_event 6 refl))
      restarted

-- Two clients know what one event told them, and the log was created anew after the second one.
abbrev knows_one : SessionSnapshot
knows_one = apply_rows no_history clock empty_session_snapshot (upto 1 two_rows)

client-IsCurrent_example :
    display_free (client_receive no_history clock knows_one (join projection 1 restarted_log))
    ≡ display_free (apply_rows no_history clock empty_session_snapshot two_rows)
unfolding session_projection construct append_and_broadcast insert_event logged restart
    hydrate_from_sql after take_checkpoint should_compact_event_tail persist_snapshot
    can_persist_snapshot prepare_snapshot_checkpoint store_checkpoint send_snapshot_if_behind
    schedule_snapshot_persist
client-IsCurrent_example =
    client-IsCurrent no_history no_size some
      (λ s t e. ap (λ o. display_free (get_or_else o s)) (sym e)) two_rows restarted_log 1 clock
      clock knows_one restarted_log-IsLog refl refl

restart_skips_tail_example :
    join projection 0 (insert_event projection bob_event 7 (restart projection second_log)) ≡ (
      some (record {
        cursor = 3;
        state = cap_snapshot no_size (
            apply_to_session_snapshot no_history
              (cap_snapshot no_size (
                cap_snapshot no_size
                  (apply_to_session_snapshot no_history empty_session_snapshot 1 ann_event 5)))
              3
              bob_event
              7);
      }),
      [],
    )
unfolding session_projection construct append_and_broadcast insert_event logged restart
    hydrate_from_sql after take_checkpoint should_compact_event_tail persist_snapshot
    can_persist_snapshot prepare_snapshot_checkpoint store_checkpoint send_snapshot_if_behind
    schedule_snapshot_persist
restart_skips_tail_example =
    restart_skips_tail projection second_log
      (record {
        cursor = 1;
        state = cap_snapshot no_size (
            cap_snapshot no_size
              (apply_to_session_snapshot no_history empty_session_snapshot 1 ann_event 5));
      })
      _ bob_event 7 0 refl refl refl (omega arith, omega arith, (omega arith, omega arith, tt))
      (omega arith)

apply_twice_example :
    display_free (
      apply_to_session_snapshot no_history
        (apply_to_session_snapshot no_history empty_session_snapshot 1 ann_event 5)
        2
        ann_event
        6)
    ≡ display_free (apply_to_session_snapshot no_history empty_session_snapshot 1 ann_event 5)
apply_twice_example = apply_twice no_history empty_session_snapshot 1 2 ann_event 5 6

fold_events-IsShowable_example : IsShowable (
    fold_events no_history empty_session_snapshot
      ((1, ann_event, 5) ∷ (2, bob_event, 6) ∷ (3, ann_event, 7) ∷ []))
unfolding empty_session_snapshot empty_preview_state
fold_events-IsShowable_example =
    fold_events-IsShowable no_history empty_session_snapshot
      ((1, ann_event, 5) ∷ (2, bob_event, 6) ∷ (3, ann_event, 7) ∷ [])
      (record { participants = tt; annotations = tt; questions = tt; output = omega arith })
