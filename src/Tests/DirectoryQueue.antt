-- ===== src/Tests/DirectoryQueue.antt =====
-- The theorems on the lane of directory writes, at a concrete queue.
use codevil.Base.{[], ◌∷◌, some, arith}
use codevil.DirectoryQueue.{DirectoryUpdateQueue, QueueEntry, enqueue, settle}
use codevil.DirectoryQueue.Lane.{IsLane, fresh, then_step, update, written, run-IsLane}

abbrev writing : QueueEntry
writing = record { work = 1; key = some "ses_1"; promise = 1 }

abbrev waiting_write : QueueEntry
waiting_write = record { work = 2; key = some "ses_1"; promise = 2 }

abbrev busy_queue : DirectoryUpdateQueue
busy_queue = record { max_pending = 1; pending = waiting_write ∷ []; running = some writing }

busy-IsLane : IsLane busy_queue
busy-IsLane = record { bounded = omega arith; busy = λ idle. absurd (ground (arith, idle)) }

run-IsLane_example : IsLane (settle (enqueue 3 (some "ses_2") 3 busy_queue).0)
run-IsLane_example =
    run-IsLane busy_queue (settle (enqueue 3 (some "ses_2") 3 busy_queue).0) busy-IsLane
      (then_step (then_step fresh (update 3 (some "ses_2") 3)) written)
