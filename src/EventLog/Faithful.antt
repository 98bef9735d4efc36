-- ===== src/EventLog/Faithful.antt =====
-- What the snapshots of the log show of the events that were appended
-- (packages/worker/src/orchestrator/event-log.ts).
use codevil.Base.{
  ℕ, suc, ◌≤◌, ◌≡◌, refl, ap, ◌∙◌, Bool, true, not, ◌||◌, List, ◌∷◌, Option, none, some, arith,
  Option-cases, inl, inr, if_rule, get_or_else, subst,
}
use codevil.Host.{Event}
use codevil.EventLog.{
  Projection, LogRow, Checkpoint, SessionEventLog, construct, insert_event, append_and_broadcast,
  schedule_snapshot_persist, should_compact_event_tail, persist_snapshot, store_checkpoint,
  on_alarm, prune_expired_events, restart, hydrate_from_sql, take_checkpoint,
}
use codevil.EventLog.Rows.{IsBelow, upto, upto-zero, replay, upto-below, upto-last, logged}

-- `core` is the part of the state that an event changes in a way of its own, which neither the
-- history of the display nor the time matters for.
pub record IsCore {S C : Type 0} (p : Projection S) (core : S → C) (step : ℕ → Event → C → C)
    : Type 0 where
  pub apply_core :
      (id : ℕ) (e : Event) (now : ℕ) (s : S) → core (p.apply id e now s) ≡ step id e (core s)
  pub cap_core : (s : S) → core (p.cap s) ≡ core s
  pub parse_core : (s t : S) → p.parse s ≡ some t → core t ≡ core s

module _ {S C : Type 0} (p : Projection S) (core : S → C) (step : ℕ → Event → C → C) where
  -- The core of what the events up to a cursor make of a session.
  abbrev pub folded : ℕ → List LogRow → C
  folded cursor history = replay step (core p.empty) (upto cursor history)

  abbrev pub Shows : ℕ → S → ℕ → List LogRow → Type 0
  Shows cursor s last_id history = (core s ≡ folded cursor history) × (cursor ≤ last_id)

  -- Each snapshot shows the events up to its cursor, of all that were ever appended.
  pub record IsFaithful (history : List LogRow) (log : SessionEventLog S) : Type 0 where
    pub ids : IsBelow (suc log.last_id) history
    pub memory : Shows log.snapshot_cursor log.snapshot log.last_id history
    pub persisted :
        Shows log.last_persisted_snapshot_cursor log.last_persisted_snapshot log.last_id history
    pub disk :
        (row : Checkpoint S)
        → log.stored ≡ some row
        → Shows row.cursor row.state log.last_id history

  Shows-empty :
      (last_id : ℕ) (history : List LogRow)
      → IsBelow (suc last_id) history
      → Shows 0 p.empty last_id history
  unfolding replay
  Shows-empty last_id history b = (rw (upto-zero _ history b) refl, omega arith)

  -- A log that is created anew over its tables and has not read them yet.
  pub construct-IsFaithful :
      (rows history : List LogRow) (last_id : ℕ) (stored : Option (Checkpoint S))
      → IsBelow (suc last_id) history
      → ((row : Checkpoint S) → stored ≡ some row → Shows row.cursor row.state last_id history)
      → IsFaithful history (construct p rows last_id stored)
  unfolding construct
  construct-IsFaithful rows history last_id stored b d = record {
    ids = b;
    memory = Shows-empty last_id history b;
    persisted = Shows-empty last_id history b;
    disk = d;
  }

  pub on_alarm-IsFaithful :
      (now : ℕ) (history : List LogRow) (log : SessionEventLog S)
      → IsFaithful history log
      → IsFaithful history (on_alarm now log)
  unfolding on_alarm prune_expired_events
  on_alarm-IsFaithful now history log f = record {
    ids = f.ids;
    memory = f.memory;
    persisted = f.persisted;
    disk = f.disk;
  }

  module _ (c : IsCore p core step) where
    Shows-next :
        (e : Event) (now last_id cursor : ℕ) (s : S) (history : List LogRow)
        → Shows cursor s last_id history
        → Shows cursor s
            (suc last_id)
            (record { id = suc last_id; event = e; created_at = now } ∷ history)
    Shows-next e now last_id cursor s history (eq, l) =
        (rw (upto-below cursor last_id e now history l) eq, omega (arith, l))

    pub insert_event-IsFaithful :
        (e : Event) (now : ℕ) (history : List LogRow) (log : SessionEventLog S)
        → log.snapshot_cursor ≡ log.last_id
        → IsFaithful history log
        → IsFaithful
            (record { id = suc log.last_id; event = e; created_at = now } ∷ history)
            (insert_event p e now log)
    unfolding insert_event replay
    insert_event-IsFaithful e now history log current f = record {
      ids = (omega arith, omega arith, f.ids);
      memory = (shown, omega arith);
      persisted = Shows-next e now _ _ _ history f.persisted;
      disk = λ row eq. Shows-next e now _ _ _ history (f.disk row eq);
    }
      where
        shown :
            core (p.cap (p.apply (suc log.last_id) e now log.snapshot))
            ≡ folded
                (suc log.last_id)
                (record { id = suc log.last_id; event = e; created_at = now } ∷ history)
        shown =
            rw (upto-last log.last_id e now history f.ids, c.cap_core, c.apply_core)
              (ap (step (suc log.last_id) e)
                (subst (λ n. core log.snapshot ≡ folded n history) current f.memory.0))

    store_checkpoint-IsFaithful :
        (history : List LogRow) (log : SessionEventLog S)
        → IsFaithful history log
        → IsFaithful history (store_checkpoint p log)
    unfolding store_checkpoint
    store_checkpoint-IsFaithful history log f = record {
      ids = f.ids;
      memory = f.memory;
      persisted = capped;
      disk = λ row eq.
          subst (λ (r : Checkpoint S). Shows r.cursor r.state log.last_id history)
            (ap (λ o. get_or_else o row) eq) capped;
    }
      where
        capped : Shows log.snapshot_cursor (p.cap log.snapshot) log.last_id history
        capped = (c.cap_core log.snapshot ∙ f.memory.0, f.memory.1)

    pub persist_snapshot-IsFaithful :
        (written : Bool) (history : List LogRow) (log : SessionEventLog S)
        → IsFaithful history log
        → IsFaithful history (persist_snapshot p written log)
    unfolding persist_snapshot
    persist_snapshot-IsFaithful written history log f =
        if_rule (IsFaithful history) (not (p.can_persist log.snapshot) || not written) f
          (store_checkpoint-IsFaithful history log f)

    schedule-IsFaithful :
        (now : ℕ) (history : List LogRow) (log : SessionEventLog S)
        → IsFaithful history log
        → IsFaithful history (schedule_snapshot_persist now log)
    unfolding schedule_snapshot_persist
    schedule-IsFaithful now history log f =
        if_rule (IsFaithful history) log.snapshot_alarm_scheduled f
          (record { ids = f.ids; memory = f.memory; persisted = f.persisted; disk = f.disk })

    pub append-IsFaithful :
        (prepare : Event → Option Event) (is_terminal : Event → Bool) (written : Bool) (e : Event)
        (now : ℕ) (history : List LogRow) (log : SessionEventLog S)
        → log.snapshot_cursor ≡ log.last_id
        → IsFaithful history log
        → IsFaithful
            (logged (prepare e) now log.last_id history)
            (append_and_broadcast p prepare is_terminal written e now log).0
    unfolding append_and_broadcast logged
    append-IsFaithful prepare is_terminal written e now history log current f =
        elim (Option-cases (prepare e)) [
          | inl n ↦ rw (n, append_and_broadcast, logged) f
          | inr (stored, n) ↦
              let g = insert_event-IsFaithful stored now history log current f in
              rw (n, append_and_broadcast, logged)
                (if_rule (IsFaithful (logged (some stored) now log.last_id history))
                  (is_terminal stored
                    || should_compact_event_tail
                        (insert_event p stored now log).events_since_persisted_snapshot)
                  (persist_snapshot-IsFaithful written _ _ g) (schedule-IsFaithful now _ _ g))
        ]

    take_checkpoint-IsFaithful :
        (row : Option (Checkpoint S)) (history : List LogRow) (log : SessionEventLog S)
        → log.stored ≡ row
        → IsFaithful history log
        → IsFaithful history (take_checkpoint p row log)
    unfolding take_checkpoint
    take_checkpoint-IsFaithful none history log eq f = f
    take_checkpoint-IsFaithful (some row) history log eq f =
        elim (Option-cases (p.parse row.state)) [
          | inl e ↦ rw (e, take_checkpoint) f
          | inr (t, e) ↦
              let shown : Shows row.cursor t log.last_id history =
                (c.parse_core row.state t e ∙ (f.disk row eq).0, (f.disk row eq).1) in
              rw (e, take_checkpoint)
                (record { ids = f.ids; memory = shown; persisted = shown; disk = f.disk })
        ]

    pub restart-IsFaithful :
        (history : List LogRow) (log : SessionEventLog S)
        → IsFaithful history log
        → IsFaithful history (restart p log)
    unfolding restart hydrate_from_sql construct
    restart-IsFaithful history log f = record {
      ids = g.ids;
      memory = g.memory;
      persisted = g.persisted;
      disk = g.disk;
    }
      where
        h :
            IsFaithful history
              (record (construct p log.rows log.last_id log.stored) { snapshot_hydrated = true })
        h =
            let k = construct-IsFaithful log.rows history log.last_id log.stored f.ids f.disk in
            record { ids = k.ids; memory = k.memory; persisted = k.persisted; disk = k.disk }

        g : IsFaithful history (
            take_checkpoint p log.stored
              (record (construct p log.rows log.last_id log.stored) { snapshot_hydrated = true }))
        g =
            take_checkpoint-IsFaithful log.stored history
              (record (construct p log.rows log.last_id log.stored) { snapshot_hydrated = true })
              refl h
