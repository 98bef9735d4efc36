-- ===== src/EventLog/Rows.antt =====
-- The rows of the event log up to a cursor and after it, and their replay
-- (packages/worker/src/orchestrator/event-log.ts, packages/worker/src/replay-batch.ts).
use codevil.Base.{
  ℕ, suc, ◌≤◌, ◌<◌, ◌≡◌, refl, List, [], ◌∷◌, Option, none, some, leb, keep, arith, Bool-cases, inl,
  inr,
}
use codevil.Host.{Event}
use codevil.EventLog.{LogRow, after}

-- The identities fall from row to row, all are below the bound and above 0.
abbrev pub IsBelow : ℕ → List LogRow → Type 0
IsBelow bound [] = Unit
IsBelow bound (r ∷ rs) = (r.id < bound) × (0 < r.id) × IsBelow r.id rs

-- The rows up to a cursor.
unfoldable pub upto : ℕ → List LogRow → List LogRow
upto cursor rows = keep (λ r. leb r.id cursor) rows

pub after-none :
    (cursor bound : ℕ) (rows : List LogRow)
    → IsBelow bound rows
    → bound ≤ suc cursor
    → after cursor rows ≡ []
unfolding after
after-none cursor bound [] b l = refl
after-none cursor bound (r ∷ rows) b l = ground (arith, after-none cursor r.id rows b.2)

pub upto-all :
    (cursor bound : ℕ) (rows : List LogRow)
    → IsBelow bound rows
    → bound ≤ suc cursor
    → upto cursor rows ≡ rows
unfolding upto
upto-all cursor bound [] b l = refl
upto-all cursor bound (r ∷ rows) b l = ground (arith, upto-all cursor r.id rows b.2)

pub upto-zero : (bound : ℕ) (rows : List LogRow) → IsBelow bound rows → upto 0 rows ≡ []
unfolding upto
upto-zero bound [] b = refl
upto-zero bound (r ∷ rows) b = ground (arith, upto-zero r.id rows b.2)

-- A client's replay of rows that stand newest first.
unfoldable pub replay : {C : Type 0} → (ℕ → Event → C → C) → C → List LogRow → C
replay step v [] = v
replay step v (r ∷ rows) = step r.id r.event (replay step v rows)

-- Replaying up to a cursor and then what comes after it is replaying all.
pub replay-upto :
    {C : Type 0} (step : ℕ → Event → C → C) (v : C) (cursor bound : ℕ) (rows : List LogRow)
    → IsBelow bound rows
    → replay step (replay step v (upto cursor rows)) (after cursor rows) ≡ replay step v rows
unfolding replay upto after
replay-upto step v cursor bound [] b = refl
replay-upto step v cursor bound (r ∷ rows) b = elim (Bool-cases (leb r.id cursor)) [
  | inl e ↦
      let none_after = after-none cursor r.id rows b.2 (ground (arith, e)) in
      let all_upto = upto-all cursor r.id rows b.2 (ground (arith, e)) in
      ground (arith, e, none_after, all_upto)
  | inr e ↦ let later = replay-upto step v cursor r.id rows b.2 in ground (arith, e, later)
]

pub upto-below :
    (cursor bound : ℕ) (e : Event) (now : ℕ) (rows : List LogRow)
    → cursor ≤ bound
    → upto cursor (record { id = suc bound; event = e; created_at = now } ∷ rows) ≡ upto cursor rows
unfolding upto
upto-below cursor bound e now rows l = ground (arith, l)

pub upto-last :
    (bound : ℕ) (e : Event) (now : ℕ) (rows : List LogRow)
    → IsBelow (suc bound) rows
    → upto (suc bound) (record { id = suc bound; event = e; created_at = now } ∷ rows)
      ≡ record { id = suc bound; event = e; created_at = now } ∷ upto bound rows
unfolding upto
upto-last bound e now rows b =
    let l = upto-all (suc bound) (suc bound) rows b (omega arith) in
    let m = upto-all bound (suc bound) rows b (omega arith) in ground (arith, l, m)

-- The events that were ever appended, after one more was given to the log.
unfoldable pub logged : Option Event → ℕ → ℕ → List LogRow → List LogRow
logged none now last_id history = history
logged (some e) now last_id history =
    record { id = suc last_id; event = e; created_at = now } ∷ history
