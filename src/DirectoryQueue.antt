-- ===== src/DirectoryQueue.antt =====
-- The lane of writes to the directory: packages/worker/src/orchestrator/directory-update-queue.ts.
-- `pending_by_key` of the source holds the pending entries that have a key, so that looking one up
-- is a search of the pending ones. A write and its promise are numbers.
pub mod Lane
use codevil.Base.{
  ℕ, Bool, true, false, ◌&&◌, String, List, [], ◌∷◌, ◌++◌, Option, none, some, map, find, length,
  leb, str_eq, if◌then◌else◌,
}
use codevil.Text.{truthy}

pub record QueueEntry : Type 0 where
  pub work : ℕ
  pub key : Option String
  pub promise : ℕ

-- `running` is the entry whose write is awaited.
pub record DirectoryUpdateQueue : Type 0 where
  pub max_pending : ℕ
  pub pending : List QueueEntry
  pub running : Option QueueEntry

pub data Enqueued : Type 0 where
  existing : (promise : ℕ) → Enqueued
  accepted : (promise : ℕ) → Enqueued
  rejected : Enqueued

unfoldable pub has_key : String → QueueEntry → Bool
has_key key e = elim (truthy e.key) [ none ↦ false | some k ↦ str_eq k key ]

-- `existing.work = work`.
unfoldable pub replace_work : String → ℕ → QueueEntry → QueueEntry
replace_work key work e = if has_key key e then record e { work = work } else e

-- The loop of `drain` up to its next await.
unfoldable pub take_entry : DirectoryUpdateQueue → DirectoryUpdateQueue
take_entry q = elim q.pending [
  | [] ↦ record q { running = none }
  | e ∷ es ↦ record q { pending = es; running = some e }
]

unfoldable pub drain : DirectoryUpdateQueue → DirectoryUpdateQueue
drain q = elim q.running [ none ↦ take_entry q | some e ↦ q ]

unfoldable pub push_entry :
    ℕ → Option String → ℕ → DirectoryUpdateQueue → DirectoryUpdateQueue × Enqueued
push_entry work key promise q =
    if leb q.max_pending (length q.pending)
    then (q, rejected)
    else let entry : QueueEntry = record { work = work; key = key; promise = promise } in
      (drain (record q { pending = q.pending ++ entry ∷ [] }), accepted promise)

unfoldable pub enqueue :
    ℕ → Option String → ℕ → DirectoryUpdateQueue → DirectoryUpdateQueue × Enqueued
enqueue work key promise q = elim (truthy key) [
  | none ↦ push_entry work key promise q
  | some k ↦ elim (find (has_key k) q.pending) [
    | none ↦ push_entry work key promise q
    | some e ↦ (record q { pending = map (replace_work k work) q.pending }, existing e.promise)
  ]
]

-- The awaited write is over, well or not, and the loop goes on.
unfoldable pub settle : DirectoryUpdateQueue → DirectoryUpdateQueue
settle q = elim q.running [ none ↦ q | some e ↦ take_entry q ]
