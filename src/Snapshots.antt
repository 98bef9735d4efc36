-- ===== src/Snapshots.antt =====
-- The bounded history of a snapshot: packages/worker/src/orchestrator/event-log-limits.ts.
-- The size of a snapshot with given messages and activity, its JSON in bytes, is a parameter.
pub mod Eviction
use codevil.Base.{
  ℕ, zero, suc, ◌+◌, ◌-◌, ◌*◌, Bool, true, false, List, [], ◌∷◌, Option, none, some, length, drop,
  leb, if◌then◌else◌,
}

abbrev pub max_session_snapshot_bytes : ℕ
max_session_snapshot_bytes = 1024 * 1024

abbrev pub max_session_messages : ℕ
max_session_messages = 500

abbrev pub max_session_activity_entries : ℕ
max_session_activity_entries = 1_000

-- A message or an entry of the activity log; `id` stands for what it says.
pub record HistoryEntry : Type 0 where
  pub id : ℕ
  pub timestamp : ℕ

pub record History : Type 0 where
  pub messages : List HistoryEntry
  pub activity_log : List HistoryEntry

-- `list.slice(-n)` for an `n` above 0.
unfoldable pub take_last {ℓ} : {A : Type ℓ} → ℕ → List A → List A
take_last n xs = drop (length xs - n) xs

-- The history without its oldest entry; of two equally old ones the message goes.
unfoldable pub drop_oldest : List HistoryEntry → List HistoryEntry → Option History
drop_oldest [] [] = none
drop_oldest [] (a ∷ as') = some (record { messages = []; activity_log = as' })
drop_oldest (m ∷ ms) [] = some (record { messages = ms; activity_log = [] })
drop_oldest (m ∷ ms) (a ∷ as') =
    if leb m.timestamp a.timestamp
    then some (record { messages = ms; activity_log = a ∷ as' })
    else some (record { messages = m ∷ ms; activity_log = as' })

-- The loop of `capSessionSnapshotForStorage`; each turn takes an entry away, and the fuel is the
-- number of entries.
unfoldable pub evict : (History → ℕ) → ℕ → History → History
evict size zero h = h
evict size (suc fuel) h = elim (drop_oldest h.messages h.activity_log) [
  | none ↦ h
  | some smaller ↦
      let rest = evict size fuel smaller in
      if leb (size h) max_session_snapshot_bytes then h else rest
]

unfoldable pub recent : History → History
recent h = record {
  messages = take_last max_session_messages h.messages;
  activity_log = take_last max_session_activity_entries h.activity_log;
}

unfoldable pub cap_session_snapshot_for_storage : (History → ℕ) → History → History
cap_session_snapshot_for_storage size h =
    evict size (length (recent h).messages + length (recent h).activity_log) (recent h)

pub record PreparedSnapshotCheckpoint : Type 0 where
  pub snapshot : History
  pub can_persist : Bool

unfoldable pub prepare_snapshot_checkpoint : (History → ℕ) → History → PreparedSnapshotCheckpoint
prepare_snapshot_checkpoint size h =
    let capped = cap_session_snapshot_for_storage size h in
    record { snapshot = capped; can_persist = leb (size capped) max_session_snapshot_bytes }
