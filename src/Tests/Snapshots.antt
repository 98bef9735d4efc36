-- ===== src/Tests/Snapshots.antt =====
-- The theorems on snapshots, at a concrete history.
use codevil.Base.{ℕ, ◌*◌, [], ◌∷◌, length, ◌+◌}
use codevil.Snapshots.{History, HistoryEntry, cap_session_snapshot_for_storage}
use codevil.Snapshots.Eviction.{IsCapped, cap_session_snapshot-IsCapped}

abbrev entry : ℕ → HistoryEntry
entry t = record { id = t; timestamp = t }

abbrev history : History
history = record { messages = entry 1 ∷ entry 3 ∷ []; activity_log = entry 2 ∷ [] }

-- 600,000 bytes for each message.
abbrev per_message : History → ℕ
per_message h = 600_000 * length h.messages

-- More than the budget without any history.
abbrev too_large : History → ℕ
too_large h = 2_000_000 + length h.messages

cap_session_snapshot-IsCapped_example :
    IsCapped per_message history (cap_session_snapshot_for_storage per_message history)
cap_session_snapshot-IsCapped_example = cap_session_snapshot-IsCapped per_message history
