-- ===== src/DirectoryQueue/Lane.antt =====
-- The writes that wait in the lane of packages/worker/src/orchestrator/directory-update-queue.ts.
use codevil.Base.{
  ℕ, suc, ◌≤◌, ◌≡◌, refl, List, [], ◌∷◌, Option, none, some, map, find, length, length-append,
  arith, String, Option-cases, inl, inr, ap,
}
use codevil.Text.{truthy}
use codevil.DirectoryQueue.{
  DirectoryUpdateQueue, QueueEntry, has_key, replace_work, take_entry, drain, push_entry, enqueue,
  settle, existing,
}

-- At most `max_pending` writes wait, and none waits while no write runs.
pub record IsLane (q : DirectoryUpdateQueue) : Type 0 where
  pub bounded : length q.pending ≤ q.max_pending
  pub busy : q.running ≡ none → q.pending ≡ []

length-replace_work :
    (key : String) (work : ℕ) (es : List QueueEntry)
    → length (map (replace_work key work) es) ≡ length es
length-replace_work key work [] = refl
length-replace_work key work (e ∷ es) = omega (arith, length-replace_work key work es)

take_entry-IsLane :
    (q : DirectoryUpdateQueue) → length q.pending ≤ suc q.max_pending → IsLane (take_entry q)
unfolding take_entry
take_entry-IsLane q l = ground (arith, l)

push_entry-IsLane :
    (work : ℕ) (key : Option String) (promise : ℕ) (q : DirectoryUpdateQueue)
    → IsLane q
    → IsLane (push_entry work key promise q).0
unfolding push_entry drain take_entry
push_entry-IsLane work key promise q i =
    ground (
      arith,
      i,
      length-append q.pending (record { work = work; key = key; promise = promise } ∷ []),
    )

merged-IsLane :
    (key : String) (work : ℕ) (q : DirectoryUpdateQueue)
    → IsLane q
    → IsLane (record q { pending = map (replace_work key work) q.pending })
merged-IsLane key work q i = record {
  bounded = omega (arith, i.bounded, length-replace_work key work q.pending);
  busy = λ idle. ap (map (replace_work key work)) (i.busy idle);
}

enqueue-IsLane :
    (work : ℕ) (key : Option String) (promise : ℕ) (q : DirectoryUpdateQueue)
    → IsLane q
    → IsLane (enqueue work key promise q).0
unfolding enqueue
enqueue-IsLane work key promise q i = elim (Option-cases (truthy key)) [
  | inl e ↦ rw (e, enqueue) (push_entry-IsLane work key promise q i)
  | inr (k, e) ↦
      rw (e, enqueue)
        (elim (Option-cases (find (has_key k) q.pending)) [
          | inl f ↦ rw (f, enqueue) (push_entry-IsLane work key promise q i)
          | inr (old, f) ↦ rw (f, enqueue) (merged-IsLane k work q i)
        ])
]

settle-IsLane : (q : DirectoryUpdateQueue) → IsLane q → IsLane (settle q)
unfolding settle take_entry
settle-IsLane q i = ground (arith, i)

-- What happens to a queue: an update comes in, or the awaited write is over.
pub data IsQueueStep (q : DirectoryUpdateQueue) : DirectoryUpdateQueue → Type 0 where
  update :
      (work : ℕ) (key : Option String) (promise : ℕ) → IsQueueStep q (enqueue work key promise q).0
  written : IsQueueStep q (settle q)

pub data IsQueueRun (q : DirectoryUpdateQueue) : DirectoryUpdateQueue → Type 0 where
  fresh : IsQueueRun q q
  then_step : {p r : DirectoryUpdateQueue} → IsQueueRun q p → IsQueueStep p r → IsQueueRun q r

step-IsLane : {q r : DirectoryUpdateQueue} → IsQueueStep q r → IsLane q → IsLane r
step-IsLane (update work key promise) i = enqueue-IsLane work key promise _ i
step-IsLane written i = settle-IsLane _ i

-- In a queue that starts so, whatever updates come in and whenever the writes are over, no more
-- than the allowed number of updates wait, and while one waits a write is running.
pub run-IsLane : (q r : DirectoryUpdateQueue) → IsLane q → IsQueueRun q r → IsLane r
run-IsLane q _ i fresh = i
run-IsLane q _ i (then_step s t) = step-IsLane t (run-IsLane q _ i s)

found_replaced :
    (key : String) (work : ℕ) (es : List QueueEntry) (e : QueueEntry)
    → find (has_key key) es ≡ some e
    → find (has_key key) (map (replace_work key work) es) ≡ some (record e { work = work })
unfolding has_key replace_work
found_replaced key work [] e f = ground arith
found_replaced key work (x ∷ xs) e f = ground (arith, found_replaced key work xs e)

-- An update of a session that has one waiting takes no new place: the waiting one keeps its place
-- and its promise, and writes the new update instead of its own, however full the queue is.
enqueue-coalesces :
    (work promise : ℕ) (key : String) (q : DirectoryUpdateQueue) (e : QueueEntry)
    → truthy (some key) ≡ some key
    → find (has_key key) q.pending ≡ some e
    → let (r, result) = enqueue work (some key) promise q in
      (result ≡ existing e.promise)
      × (length r.pending ≡ length q.pending)
      × (r.running ≡ q.running)
      × (find (has_key key) r.pending ≡ some (record e { work = work }))
unfolding enqueue
enqueue-coalesces work promise key q e t f =
    rw (t, enqueue)
      (rw (f, enqueue)
        (refl, length-replace_work key work q.pending, refl, found_replaced key work q.pending e f))
