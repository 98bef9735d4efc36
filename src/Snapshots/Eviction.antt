-- ===== src/Snapshots/Eviction.antt =====
-- What is left of a snapshot's history, and when it is stored
-- (packages/worker/src/orchestrator/event-log-limits.ts).
use codevil.Base.{
  ℕ, zero, suc, ◌+◌, ◌-◌, ◌≤◌, ◌≡◌, ◌⊎◌, inl, inr, Bool, true, false, List, [], ◌∷◌, none, some,
  length, drop, leb, arith, Option-cases, Bool-cases, subst, if◌then◌else◌, if_rule,
}
use codevil.Snapshots.{
  History, HistoryEntry, take_last, drop_oldest, evict, recent, cap_session_snapshot_for_storage,
  prepare_snapshot_checkpoint, max_session_snapshot_bytes, max_session_messages,
  max_session_activity_entries,
}

-- What is left when some of the first elements are gone.
pub data IsSuffix {ℓ} {A : Type ℓ} : List A → List A → Type ℓ where
  all : {xs : List A} → IsSuffix xs xs
  less : {x : A} {ys xs : List A} → IsSuffix ys xs → IsSuffix ys (x ∷ xs)

-- The size is in bounds, or there is nothing left to evict.
abbrev pub FitsOrEmpty : (History → ℕ) → History → Type 0
FitsOrEmpty size h =
    (size h ≤ max_session_snapshot_bytes) ⊎ ((h.messages ≡ []) × (h.activity_log ≡ []))

abbrev pub IsWithin : History → History → Type 0
IsWithin g h = IsSuffix g.messages h.messages × IsSuffix g.activity_log h.activity_log

drop_oldest-none :
    (h : History)
    → drop_oldest h.messages h.activity_log ≡ none
    → (h.messages ≡ []) × (h.activity_log ≡ [])
unfolding drop_oldest
drop_oldest-none h e = ground (arith, e)

drop_oldest-some :
    (h g : History)
    → drop_oldest h.messages h.activity_log ≡ some g
    → suc (length g.messages + length g.activity_log) ≡ length h.messages + length h.activity_log
unfolding drop_oldest
drop_oldest-some h g e = ground (arith, e)

evict-FitsOrEmpty :
    (size : History → ℕ) (fuel : ℕ) (h : History)
    → length h.messages + length h.activity_log ≤ fuel
    → FitsOrEmpty size (evict size fuel h)
unfolding evict
evict-FitsOrEmpty size zero h l = ground (arith, l)
evict-FitsOrEmpty size (suc fuel) h l =
    elim (Option-cases (drop_oldest h.messages h.activity_log)) [
      | inl e ↦ rw (e, evict) (inr (drop_oldest-none h e))
      | inr (g, e) ↦
          let smaller = evict-FitsOrEmpty size fuel g (omega (arith, l, drop_oldest-some h g e)) in
          rw (e, evict)
            (elim (Bool-cases (leb (size h) max_session_snapshot_bytes)) [
              | inl f ↦ rw f (inl (ground (arith, f)))
              | inr f ↦ rw f smaller
            ])
    ]

IsSuffix-length {ℓ} : {A : Type ℓ} {ys xs : List A} → IsSuffix ys xs → length ys ≤ length xs
IsSuffix-length all = omega arith
IsSuffix-length (less s) = omega (arith, IsSuffix-length s)

IsSuffix-trans {ℓ} :
    {A : Type ℓ} {zs ys xs : List A} → IsSuffix zs ys → IsSuffix ys xs → IsSuffix zs xs
IsSuffix-trans s all = s
IsSuffix-trans s (less t) = less (IsSuffix-trans s t)

drop-IsSuffix {ℓ} : {A : Type ℓ} (n : ℕ) (xs : List A) → IsSuffix (drop n xs) xs
drop-IsSuffix zero xs = all
drop-IsSuffix (suc n) [] = all
drop-IsSuffix (suc n) (x ∷ xs) = less (drop-IsSuffix n xs)

length-drop {ℓ} : {A : Type ℓ} (n : ℕ) (xs : List A) → length (drop n xs) ≡ length xs - n
length-drop zero xs = omega arith
length-drop (suc n) [] = omega arith
length-drop (suc n) (x ∷ xs) = omega (arith, length-drop n xs)

kept :
    {ms as' : List HistoryEntry} {f g : History}
    → some f ≡ some g
    → IsSuffix f.messages ms × IsSuffix f.activity_log as'
    → IsSuffix g.messages ms × IsSuffix g.activity_log as'
kept {ms} {as'} e s =
    subst (λ (k : History). IsSuffix k.messages ms × IsSuffix k.activity_log as')
      (ground (arith, e)) s

older :
    (b : Bool) (m a : HistoryEntry) (ms as' : List HistoryEntry) (g : History)
    → (if b
        then some (record { messages = ms; activity_log = a ∷ as' })
        else some (record { messages = m ∷ ms; activity_log = as' }))
      ≡ some g
    → IsSuffix g.messages (m ∷ ms) × IsSuffix g.activity_log (a ∷ as')
older true m a ms as' g e = kept e (less all, all)
older false m a ms as' g e = kept e (all, less all)

drop_oldest-IsWithin :
    (ms as' : List HistoryEntry) (g : History)
    → drop_oldest ms as' ≡ some g
    → IsSuffix g.messages ms × IsSuffix g.activity_log as'
unfolding drop_oldest
drop_oldest-IsWithin [] [] g e = absurd (ground arith)
drop_oldest-IsWithin [] (a ∷ as') g e = kept e (all, less all)
drop_oldest-IsWithin (m ∷ ms) [] g e = kept e (less all, all)
drop_oldest-IsWithin (m ∷ ms) (a ∷ as') g e = older (leb m.timestamp a.timestamp) m a ms as' g e

evict-IsWithin : (size : History → ℕ) (fuel : ℕ) (h : History) → IsWithin (evict size fuel h) h
unfolding evict
evict-IsWithin size zero h = (all, all)
evict-IsWithin size (suc fuel) h = elim (Option-cases (drop_oldest h.messages h.activity_log)) [
  | inl e ↦ rw (e, evict) (all, all)
  | inr (g, e) ↦
      let smaller = evict-IsWithin size fuel g in
      let within = drop_oldest-IsWithin h.messages h.activity_log g e in
      rw (e, evict)
        (if_rule (λ k. IsWithin k h) (leb (size h) max_session_snapshot_bytes) (all, all)
          (IsSuffix-trans (smaller.0) (within.0), IsSuffix-trans (smaller.1) (within.1)))
]

take_last-IsSuffix {ℓ} : {A : Type ℓ} (n : ℕ) (xs : List A) → IsSuffix (take_last n xs) xs
unfolding take_last
take_last-IsSuffix n xs = drop-IsSuffix (length xs - n) xs

length-take_last {ℓ} : {A : Type ℓ} (n : ℕ) (xs : List A) → length (take_last n xs) ≤ n
unfolding take_last
length-take_last n xs = omega (arith, length-drop (length xs - n) xs)

-- What a capped history is: at most 500 messages and 1,000 entries, the newest of each, and few
-- enough for the budget, unless there are none.
pub record IsCapped (size : History → ℕ) (h g : History) : Type 0 where
  pub within : IsWithin g h
  pub messages_bounded : length g.messages ≤ max_session_messages
  pub activity_bounded : length g.activity_log ≤ max_session_activity_entries
  pub fits : FitsOrEmpty size g

-- The loop that caps a snapshot ends with its newest messages and activity, at most 500 and 1,000
-- of them, whose size is within the budget, or with none at all, whatever the size of a snapshot.
pub cap_session_snapshot-IsCapped :
    (size : History → ℕ) (h : History) → IsCapped size h (cap_session_snapshot_for_storage size h)
unfolding cap_session_snapshot_for_storage recent
cap_session_snapshot-IsCapped size h =
    let capped =
      evict-IsWithin size (length (recent h).messages + length (recent h).activity_log)
        (recent h) in
    record {
      within = (
        IsSuffix-trans (capped.0) (take_last-IsSuffix max_session_messages h.messages),
        IsSuffix-trans (capped.1) (take_last-IsSuffix max_session_activity_entries h.activity_log),
      );
      messages_bounded =
          omega
            (arith, IsSuffix-length (capped.0), length-take_last max_session_messages h.messages);
      activity_bounded = omega (
        arith,
        IsSuffix-length (capped.1),
        length-take_last max_session_activity_entries h.activity_log,
      );
      fits = evict-FitsOrEmpty size _ (recent h) (omega arith);
    }

-- A checkpoint that cannot be stored has no history left: what exceeds the budget is then the part
-- of the snapshot that is never evicted.
not_persisted-empty :
    (size : History → ℕ) (h : History)
    → (prepare_snapshot_checkpoint size h).can_persist ≡ false
    → (prepare_snapshot_checkpoint size h).snapshot ≡ record { messages = []; activity_log = [] }
unfolding prepare_snapshot_checkpoint
not_persisted-empty size h e = ground (arith, e, (cap_session_snapshot-IsCapped size h).fits)
