-- ===== src/EventLog.antt =====
-- The event log of a session (packages/worker/src/orchestrator/event-log.ts) and what a client that
-- joins is sent (packages/worker/src/snapshot-frame.ts, packages/worker/src/replay-batch.ts). The
-- state that the log folds its events into is any type with a `Projection`.
pub mod Rows
pub mod Faithful
pub mod Joining
use codevil.Base.{
  ℕ, zero, suc, ◌+◌, ◌-◌, ◌*◌, Bool, true, false, not, ◌&&◌, ◌||◌, List, [], ◌∷◌, ◌++◌, Option,
  none, some, length, leb, ltb, keep, if◌then◌else◌,
}
use codevil.Host.{Event}

abbrev pub event_log_retention_ms : ℕ
event_log_retention_ms = 7 * 86_400_000

abbrev pub max_events_between_snapshots : ℕ
max_events_between_snapshots = 1_000

unfoldable pub should_compact_event_tail : ℕ → Bool
should_compact_event_tail event_count = leb max_events_between_snapshots event_count

-- What the log uses of the state it keeps: `emptySessionSnapshot`, `applyToSessionSnapshot` for the
-- event of a row at a time, `capSessionSnapshotForStorage`, the `canPersist` of
-- `prepareSnapshotCheckpoint`, and the reading of a stored state, which may fail.
pub record Projection (S : Type 0) : Type 0 where
  pub empty : S
  pub apply : ℕ → Event → ℕ → S → S
  pub cap : S → S
  pub can_persist : S → Bool
  pub parse : S → Option S

-- A row of `events`.
pub record LogRow : Type 0 where
  pub id : ℕ
  pub event : Event
  pub created_at : ℕ

-- A row of `snapshots`, and the frame that a client is sent.
pub record Checkpoint (S : Type 0) : Type 0 where
  pub cursor : ℕ
  pub state : S

-- `rows` are those of `events`, newest first, and `last_id` is the greatest identity that the table
-- has given. `stored` is the row of `snapshots`. `sent` are the rows broadcast to the clients and
-- `alarms` the times for which an alarm was asked, newest first.
pub record SessionEventLog (S : Type 0) : Type 0 where
  pub rows : List LogRow
  pub last_id : ℕ
  pub stored : Option (Checkpoint S)
  pub snapshot : S
  pub snapshot_cursor : ℕ
  pub snapshot_dirty : Bool
  pub snapshot_hydrated : Bool
  pub snapshot_alarm_scheduled : Bool
  pub last_persisted_snapshot : S
  pub last_persisted_snapshot_cursor : ℕ
  pub events_since_persisted_snapshot : ℕ
  pub sent : List LogRow
  pub alarms : List ℕ

-- The rows after a cursor, `WHERE id > ?`.
unfoldable pub after : ℕ → List LogRow → List LogRow
after cursor rows = keep (λ r. ltb cursor r.id) rows

module _ {S : Type 0} where
  -- A log whose object was created anew over given tables.
  unfoldable pub construct :
      Projection S → List LogRow → ℕ → Option (Checkpoint S) → SessionEventLog S
  construct p rows last_id stored = record {
    rows = rows;
    last_id = last_id;
    stored = stored;
    snapshot = p.empty;
    snapshot_cursor = 0;
    snapshot_dirty = false;
    snapshot_hydrated = false;
    snapshot_alarm_scheduled = false;
    last_persisted_snapshot = p.empty;
    last_persisted_snapshot_cursor = 0;
    events_since_persisted_snapshot = 0;
    sent = [];
    alarms = [];
  }

  unfoldable pub get_snapshot : Projection S → SessionEventLog S → S
  get_snapshot p log =
      if p.can_persist log.snapshot then log.snapshot else log.last_persisted_snapshot

  unfoldable pub get_snapshot_cursor : Projection S → SessionEventLog S → ℕ
  get_snapshot_cursor p log =
      if p.can_persist log.snapshot then log.snapshot_cursor else log.last_persisted_snapshot_cursor

  unfoldable pub prune_expired_events : ℕ → SessionEventLog S → SessionEventLog S
  prune_expired_events now log = record log {
    rows = keep (λ r. leb (now - event_log_retention_ms) r.created_at) log.rows;
  }

  unfoldable pub on_alarm : ℕ → SessionEventLog S → SessionEventLog S
  on_alarm now log = prune_expired_events now (record log { snapshot_alarm_scheduled = false })

  unfoldable pub store_checkpoint : Projection S → SessionEventLog S → SessionEventLog S
  store_checkpoint p log = record log {
    stored = some (record { cursor = log.snapshot_cursor; state = p.cap log.snapshot });
    last_persisted_snapshot = p.cap log.snapshot;
    last_persisted_snapshot_cursor = log.snapshot_cursor;
    events_since_persisted_snapshot = 0;
    snapshot_dirty = false;
  }

  -- `written` says whether the statement goes through; a failure is logged and nothing else.
  unfoldable pub persist_snapshot : Projection S → Bool → SessionEventLog S → SessionEventLog S
  persist_snapshot p written log =
      if not (p.can_persist log.snapshot) || not written then log else store_checkpoint p log

  unfoldable pub schedule_snapshot_persist : ℕ → SessionEventLog S → SessionEventLog S
  schedule_snapshot_persist now log =
      if log.snapshot_alarm_scheduled
      then log
      else record log { snapshot_alarm_scheduled = true; alarms = (now + 30_000) ∷ log.alarms }

  -- The row, the snapshot in memory and the broadcast of an event.
  unfoldable pub insert_event : Projection S → Event → ℕ → SessionEventLog S → SessionEventLog S
  insert_event p event now log =
      let id = suc log.last_id in
      let row : LogRow = record { id = id; event = event; created_at = now } in
      record log {
        rows = row ∷ log.rows;
        last_id = id;
        snapshot = p.cap (p.apply id event now log.snapshot);
        snapshot_cursor = id;
        snapshot_dirty = true;
        events_since_persisted_snapshot = suc log.events_since_persisted_snapshot;
        sent = row ∷ log.sent;
      }

  -- `prepare` validates, redacts and shortens the event, and `is_terminal` says whether its type is
  -- among those after which the snapshot is stored at once.
  unfoldable pub append_and_broadcast :
      Projection S
      → (Event → Option Event)
      → (Event → Bool)
      → Bool
      → Event
      → ℕ
      → SessionEventLog S
      → SessionEventLog S × Option ℕ
  append_and_broadcast p prepare is_terminal written event now log = elim (prepare event) [
    | none ↦ (log, none)
    | some stored ↦
        let next = insert_event p stored now log in
        (
          if is_terminal stored || should_compact_event_tail next.events_since_persisted_snapshot
              then persist_snapshot p written next
              else schedule_snapshot_persist now next,
          some next.last_id,
        )
  ]

  -- A row of `snapshots` that was read back; one that does not parse leaves the defaults.
  unfoldable pub take_checkpoint :
      Projection S → Option (Checkpoint S) → SessionEventLog S → SessionEventLog S
  take_checkpoint p none log = log
  take_checkpoint p (some row) log = elim (p.parse row.state) [
    | none ↦ log
    | some parsed ↦ record log {
      snapshot = parsed;
      snapshot_cursor = row.cursor;
      last_persisted_snapshot = parsed;
      last_persisted_snapshot_cursor = row.cursor;
    }
  ]

  unfoldable pub hydrate_from_sql : Projection S → SessionEventLog S → SessionEventLog S
  hydrate_from_sql p log =
      let g = take_checkpoint p log.stored (record log { snapshot_hydrated = true }) in
      if log.snapshot_hydrated then log else record g {
        events_since_persisted_snapshot = length (after g.last_persisted_snapshot_cursor g.rows);
      }

  -- The object is evicted and created anew over its tables.
  unfoldable pub restart : Projection S → SessionEventLog S → SessionEventLog S
  restart p log = hydrate_from_sql p (construct p log.rows log.last_id log.stored)

  -- The snapshot frame that is sent to a client behind the cursor, and where its replay starts.
  unfoldable pub send_snapshot_if_behind : ℕ → ℕ → S → Option (Checkpoint S) × ℕ
  send_snapshot_if_behind join_cursor snapshot_cursor snapshot =
      if leb snapshot_cursor join_cursor
      then (none, join_cursor)
      else (some (record { cursor = snapshot_cursor; state = snapshot }), snapshot_cursor)

  -- What a client that joins from a cursor is sent: a frame, if it is behind, and the rows after
  -- it, newest first.
  unfoldable pub join : Projection S → ℕ → SessionEventLog S → Option (Checkpoint S) × List LogRow
  join p cursor log =
      let (frame, replay_cursor) =
        send_snapshot_if_behind cursor (get_snapshot_cursor p log) (get_snapshot p log) in
      (frame, after replay_cursor log.rows)
