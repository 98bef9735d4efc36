-- ===== src/WebClient/Cursors.antt =====
-- The cursors of what a browser's socket hands on (packages/web/src/lib/ws-client.ts).
use codevil.Base.{ℕ, ◌≤◌, List, [], ◌∷◌, arith}
use codevil.WebClient.{
  EventEnvelope, Delivery, on_snapshot, on_replay_batch, on_event, advance_to_last,
}

-- No event of a batch is beyond a cursor.
abbrev pub IsWithin : ℕ → List EventEnvelope → Type 0
IsWithin limit [] = Unit
IsWithin limit (e ∷ events) = e.cursor ≤ limit × IsWithin limit events

-- The events of a batch come in their order.
abbrev pub IsOrdered : List EventEnvelope → Type 0
IsOrdered [] = Unit
IsOrdered (e ∷ []) = Unit
IsOrdered (e ∷ f ∷ events) = e.cursor ≤ f.cursor × IsOrdered (f ∷ events)

-- What was delivered is not beyond a cursor.
abbrev pub IsReached : ℕ → List Delivery → Type 0
IsReached limit [] = Unit
IsReached limit (on_snapshot frame ∷ ds) = frame.cursor ≤ limit × IsReached limit ds
IsReached limit (on_replay_batch events ∷ ds) = IsWithin limit events × IsReached limit ds
IsReached limit (on_event e ∷ ds) = e.cursor ≤ limit × IsReached limit ds

-- The first cursor is the greatest, and each is at least the one before it.
abbrev pub IsAdvancing : ℕ → List ℕ → Type 0
IsAdvancing limit [] = Unit
IsAdvancing limit (n ∷ ns) = n ≤ limit × IsAdvancing n ns

IsWithin-step :
    {m n : ℕ} (events : List EventEnvelope) → m ≤ n → IsWithin m events → IsWithin n events
IsWithin-step [] l w = tt
IsWithin-step (e ∷ events) l (w, rest) = (ground arith, IsWithin-step events l rest)

pub IsReached-step : {m n : ℕ} (ds : List Delivery) → m ≤ n → IsReached m ds → IsReached n ds
IsReached-step [] l r = tt
IsReached-step (on_snapshot frame ∷ ds) l (r, rest) = (ground arith, IsReached-step ds l rest)
IsReached-step (on_replay_batch events ∷ ds) l (r, rest) =
    (IsWithin-step events l r, IsReached-step ds l rest)
IsReached-step (on_event e ∷ ds) l (r, rest) = (ground arith, IsReached-step ds l rest)

pub IsAdvancing-step : {m n : ℕ} (ns : List ℕ) → m ≤ n → IsAdvancing m ns → IsAdvancing n ns
IsAdvancing-step [] l a = tt
IsAdvancing-step (k ∷ ns) l (a, rest) = (ground arith, rest)

pub advance_to_last-grows : (n : ℕ) (events : List EventEnvelope) → n ≤ advance_to_last n events
unfolding advance_to_last
advance_to_last-grows n [] = ground arith
advance_to_last-grows n (e ∷ []) = ground arith
advance_to_last-grows n (e ∷ f ∷ events) = advance_to_last-grows n (f ∷ events)

head-advance_to_last :
    (n : ℕ) (e : EventEnvelope) (events : List EventEnvelope)
    → IsOrdered (e ∷ events)
    → e.cursor ≤ advance_to_last n (e ∷ events)
unfolding advance_to_last
head-advance_to_last n e [] o = ground arith
head-advance_to_last n e (f ∷ events) (l, o) = ground (arith, head-advance_to_last n f events o)

-- A batch in order is within the cursor of its last event.
pub batch-IsWithin :
    (n : ℕ) (events : List EventEnvelope)
    → IsOrdered events
    → IsWithin (advance_to_last n events) events
unfolding advance_to_last
batch-IsWithin n [] o = tt
batch-IsWithin n (e ∷ []) o = (head-advance_to_last n e [] tt, tt)
batch-IsWithin n (e ∷ f ∷ events) (l, o) =
    (head-advance_to_last n e (f ∷ events) (l, o), batch-IsWithin n (f ∷ events) o)
