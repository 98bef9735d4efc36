-- ===== src/EventLog/Joining.antt =====
-- What a client that joins comes to know (packages/worker/src/snapshot-frame.ts and
-- packages/worker/src/orchestrator/event-log.ts), and what it misses after a restart.
use codevil.Base.{
  ℕ, suc, ◌≤◌, ◌≡◌, Bool, true, List, [], Option, none, some, leb, arith, Bool-cases, inl, inr,
}
use codevil.Host.{Event}
use codevil.EventLog.{
  Projection, LogRow, Checkpoint, SessionEventLog, after, construct, insert_event,
  append_and_broadcast, persist_snapshot, on_alarm, restart, hydrate_from_sql, take_checkpoint,
  join, send_snapshot_if_behind, get_snapshot, get_snapshot_cursor,
}
use codevil.EventLog.Rows.{IsBelow, after-none, replay, replay-upto, logged}
use codevil.EventLog.Faithful.{
  IsCore, IsFaithful, folded, Shows, construct-IsFaithful, append-IsFaithful,
  persist_snapshot-IsFaithful, on_alarm-IsFaithful, restart-IsFaithful,
}

-- A client takes a frame in place of its state and replays the rows.
unfoldable pub received :
    {S C : Type 0} → (S → C) → (ℕ → Event → C → C) → C → Option (Checkpoint S) × List LogRow → C
received core step v (none, rows) = replay step v rows
received core step v (some frame, rows) = replay step (core frame.state) rows

-- Where the replay of a client that joins from a cursor begins.
abbrev pub replay_start : {S : Type 0} → Projection S → ℕ → SessionEventLog S → ℕ
replay_start p cursor log =
    (send_snapshot_if_behind cursor (get_snapshot_cursor p log) (get_snapshot p log)).1

-- One thing that happens to a log: an event is appended while the snapshot shows every event before
-- it, the snapshot is stored, an alarm prunes the old rows, or the object is created anew.
pub data IsLogStep {S : Type 0} (p : Projection S)
    : List LogRow → SessionEventLog S → List LogRow → SessionEventLog S → Type 0 where
  appended :
      {history : List LogRow} {log : SessionEventLog S} (prepare : Event → Option Event)
      (is_terminal : Event → Bool) (written : Bool) (e : Event) (now : ℕ)
      → log.snapshot_cursor ≡ log.last_id
      → IsLogStep p history log
          (logged (prepare e) now log.last_id history)
          (append_and_broadcast p prepare is_terminal written e now log).0
  persisted :
      {history : List LogRow} {log : SessionEventLog S} (written : Bool)
      → IsLogStep p history log history (persist_snapshot p written log)
  alarmed :
      {history : List LogRow} {log : SessionEventLog S} (now : ℕ)
      → IsLogStep p history log history (on_alarm now log)
  restarted :
      {history : List LogRow} {log : SessionEventLog S}
      → IsLogStep p history log history (restart p log)

-- The logs of a new session.
pub data IsLog {S : Type 0} (p : Projection S) : List LogRow → SessionEventLog S → Type 0 where
  fresh : IsLog p [] (construct p [] 0 none)
  next :
      {history history' : List LogRow} {log log' : SessionEventLog S}
      → IsLog p history log
      → IsLogStep p history log history' log'
      → IsLog p history' log'

module _ {S C : Type 0} (p : Projection S) (core : S → C) (step : ℕ → Event → C → C)
    (c : IsCore p core step) where
  step-IsFaithful :
      {h : List LogRow} {l : SessionEventLog S} {h' : List LogRow} {l' : SessionEventLog S}
      → IsLogStep p h l h' l'
      → IsFaithful p core step h l
      → IsFaithful p core step h' l'
  step-IsFaithful (appended pr is_t w e now current) f =
      append-IsFaithful p core step c pr is_t w e now _ _ current f
  step-IsFaithful (persisted written) f = persist_snapshot-IsFaithful p core step c written _ _ f
  step-IsFaithful (alarmed now) f = on_alarm-IsFaithful p core step now _ _ f
  step-IsFaithful restarted f = restart-IsFaithful p core step c _ _ f

  IsLog-IsFaithful :
      (history : List LogRow) (log : SessionEventLog S)
      → IsLog p history log
      → IsFaithful p core step history log
  IsLog-IsFaithful _ _ fresh =
      construct-IsFaithful p core step [] [] 0 none tt (λ row e. ground (arith, e))
  IsLog-IsFaithful _ _ (next i s) = step-IsFaithful s (IsLog-IsFaithful _ _ i)

  -- The state that is offered to clients shows the events up to the cursor that goes with it.
  get_snapshot-Shows :
      (history : List LogRow) (log : SessionEventLog S)
      → IsFaithful p core step history log
      → Shows p core step (get_snapshot_cursor p log) (get_snapshot p log) log.last_id history
  unfolding get_snapshot get_snapshot_cursor
  get_snapshot-Shows history log f = elim (Bool-cases (p.can_persist log.snapshot)) [
    | inl e ↦ rw e f.memory
    | inr e ↦ rw e f.persisted
  ]

  replay-after :
      (history : List LogRow) (log : SessionEventLog S) (cursor : ℕ) (v : C)
      → IsFaithful p core step history log
      → v ≡ folded p core step cursor history
      → after cursor log.rows ≡ after cursor history
      → replay step v (after cursor log.rows) ≡ replay step (core p.empty) history
  replay-after history log cursor v f known there =
      rw (there, known) (replay-upto step (core p.empty) cursor (suc log.last_id) history f.ids)

  -- In any log of a new session, a client that joins from some cursor, with what the events up to
  -- that cursor make of a session, comes to know what all events make of it, whichever snapshots
  -- were stored, restored or pruned away, if no event was appended to a log that was created anew
  -- from an older snapshot, and if the rows after the start of the client's replay are still there.
  pub joined-IsCurrent :
      (history : List LogRow) (log : SessionEventLog S) (cursor : ℕ) (v : C)
      → IsLog p history log
      → v ≡ folded p core step cursor history
      → after (replay_start p cursor log) log.rows ≡ after (replay_start p cursor log) history
      → received core step v (join p cursor log) ≡ replay step (core p.empty) history
  unfolding received join send_snapshot_if_behind
  joined-IsCurrent history log cursor v i known there =
      elim (Bool-cases (leb (get_snapshot_cursor p log) cursor)) [
        | inl e ↦
            rw (e, join) (replay-after history log cursor v f known (ground (arith, e, there)))
        | inr e ↦
            rw (e, join)
              (replay-after history log (get_snapshot_cursor p log) _ f shown.0
                (ground (arith, e, there)))
      ]
    where
      f : IsFaithful p core step history log
      f = IsLog-IsFaithful history log i

      shown : Shows p core step (get_snapshot_cursor p log) (get_snapshot p log) log.last_id history
      shown = get_snapshot-Shows history log f

insert-join :
    {S : Type 0} (p : Projection S) (g : SessionEventLog S) (rows : List LogRow) (t : S)
    (last_id : ℕ) (e : Event) (now cursor : ℕ)
    → g.snapshot ≡ t
    → g.last_id ≡ last_id
    → g.rows ≡ rows
    → p.can_persist (p.cap (p.apply (suc last_id) e now t)) ≡ true
    → IsBelow (suc last_id) rows
    → cursor ≤ last_id
    → join p cursor (insert_event p e now g)
      ≡ (some (record { cursor = suc last_id; state = p.cap (p.apply (suc last_id) e now t) }), [])
unfolding join send_snapshot_if_behind get_snapshot get_snapshot_cursor insert_event after
insert-join p g rows t last_id e now cursor s_eq n_eq r_eq fits ids behind =
    let gone = after-none (suc last_id) (suc last_id) rows ids (omega arith) in
    rw (s_eq, n_eq, r_eq, fits) (ground (arith, behind, gone))

restart-stored :
    {S : Type 0} (p : Projection S) (log : SessionEventLog S) (row : Checkpoint S) (t : S)
    → log.stored ≡ some row
    → p.parse row.state ≡ some t
    → ((restart p log).snapshot ≡ t)
      × ((restart p log).last_id ≡ log.last_id)
      × ((restart p log).rows ≡ log.rows)
unfolding restart hydrate_from_sql take_checkpoint construct
restart-stored p log row t stored read = ground (arith, stored, read)

-- A log that was created anew takes its stored snapshot as all that there is: if an event is
-- appended then, with the identity after the last one, every client that was behind is sent the
-- stored snapshot with that one event applied, and no rows, whatever rows lie between the two.
pub restart_skips_tail :
    {S : Type 0} (p : Projection S) (log : SessionEventLog S) (row : Checkpoint S) (t : S)
    (e : Event) (now cursor : ℕ)
    → log.stored ≡ some row
    → p.parse row.state ≡ some t
    → p.can_persist (p.cap (p.apply (suc log.last_id) e now t)) ≡ true
    → IsBelow (suc log.last_id) log.rows
    → cursor ≤ log.last_id
    → join p cursor (insert_event p e now (restart p log)) ≡ (
      some (record { cursor = suc log.last_id; state = p.cap (p.apply (suc log.last_id) e now t) }),
      [],
    )
restart_skips_tail p log row t e now cursor stored read fits ids behind =
    let (s_eq, n_eq, r_eq) = restart-stored p log row t stored read in
    insert-join p (restart p log) log.rows t log.last_id e now cursor s_eq n_eq r_eq fits ids behind
