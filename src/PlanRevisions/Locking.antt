-- ===== src/PlanRevisions/Locking.antt =====
-- Frozen and locked plans (packages/worker/src/orchestrator/plan-revisions-store.ts,
-- plan-revision-actions.ts).
use codevil.Base.{
  ℕ, ◌≡◌, refl, false, List, [], ◌∷◌, none, some, String, map, str_eq_refl, str_eq_iff, arith,
  get_or_else, zero, suc, is_some, ◌∙◌, true, str_eq, ◌&&◌, ◌==◌,
}
use codevil.Host.{Host, PlanRevision, emit}
use codevil.PlanRevisions.{
  load_plan_revision, lock_plan_revision, lock_row, freeze_plan_revision, put_revision,
  consume_open_annotations, ensure_annotatable_revision, is_revision, check_revision,
}

load-lock :
    (rs : List PlanRevision) (run_id : String) (round now : ℕ) (r : PlanRevision)
    → load_plan_revision rs run_id round ≡ some r
    → load_plan_revision (map (lock_row run_id round now) rs) run_id round
      ≡ some (record r { locked_at = some (get_or_else r.locked_at now) })
unfolding load_plan_revision lock_row
load-lock [] run_id round now r e = ground arith
load-lock (x ∷ xs) run_id round now r e = ground (arith, load-lock xs run_id round now r)

-- What may come after a revision was locked: any revision is locked, at any time, another revision is
-- frozen, or whatever leaves the table of revisions alone, as annotations and decisions do.
pub data IsLater (run_id : String) (round : ℕ) (h : Host) : Host → Type 0 where
  now_on : IsLater run_id round h h
  locking :
      {g : Host} (other : String) (other_round : ℕ)
      → IsLater run_id round h g
      → IsLater run_id round h (lock_plan_revision other other_round g)
  freezing :
      {g : Host} (other : String) (other_round : ℕ) (markdown : String)
      → IsLater run_id round h g
      → (str_eq other run_id && other_round == round) ≡ false
      → IsLater run_id round h (freeze_plan_revision other other_round markdown g)
  otherwise :
      {g f : Host} → IsLater run_id round h g → f.revisions ≡ g.revisions → IsLater run_id round h f

-- A locked revision is as it was when any revision is locked.
relock :
    (rs : List PlanRevision) (run_id other : String) (round other_round now : ℕ) (r : PlanRevision)
    → load_plan_revision rs run_id round ≡ some r
    → is_some r.locked_at ≡ true
    → load_plan_revision (map (lock_row other other_round now) rs) run_id round ≡ some r
unfolding load_plan_revision lock_row
relock [] run_id other round other_round now r e l = ground arith
relock (x ∷ xs) run_id other round other_round now r e l =
    ground (arith, relock xs run_id other round other_round now r)

frozen_found :
    (r : PlanRevision) (rs : List PlanRevision)
    → load_plan_revision (put_revision r rs) r.run_id r.round ≡ some r
unfolding load_plan_revision put_revision
frozen_found r [] = ground (arith, str_eq_refl r.run_id)
frozen_found r (x ∷ xs) = ground (arith, frozen_found r xs)

-- Another revision is found as it was.
others_kept :
    (r : PlanRevision) (rs : List PlanRevision) (run_id : String) (round : ℕ)
    → is_revision run_id round r ≡ false
    → load_plan_revision (put_revision r rs) run_id round ≡ load_plan_revision rs run_id round
unfolding load_plan_revision put_revision
others_kept r [] run_id round e = ground arith
others_kept r (x ∷ xs) run_id round e = ground (
  arith,
  others_kept r xs run_id round e,
  str_eq_iff x.run_id r.run_id,
  str_eq_iff x.run_id run_id,
  str_eq_iff r.run_id run_id,
)

consume_open-revisions :
    (run_id : String) (round : ℕ) (h : Host)
    → ((consume_open_annotations run_id round h).revisions ≡ h.revisions)
      × ((consume_open_annotations run_id round h).now ≡ h.now)
unfolding consume_open_annotations emit
consume_open-revisions run_id round h = ground arith

freeze-revisions :
    (run_id : String) (round : ℕ) (markdown : String) (h : Host)
    → (freeze_plan_revision run_id round markdown h).revisions
      ≡ put_revision
          (record {
            run_id = run_id;
            round = round;
            markdown = markdown;
            locked_at = none;
            frozen_at = h.now;
          })
          h.revisions
unfolding freeze_plan_revision emit
freeze-revisions run_id zero markdown h = refl
freeze-revisions run_id (suc round) markdown h =
    let kept = consume_open-revisions run_id round h in rw (kept.0, kept.1) refl

-- A plan that is frozen is read back, unlocked, with the time it was frozen at, in place of an
-- earlier one of the same run and round; the plans of other runs and rounds are as before.
pub freeze-load :
    (run_id : String) (round : ℕ) (markdown : String) (h : Host)
    → let g = freeze_plan_revision run_id round markdown h in
      let frozen : PlanRevision = record {
        run_id = run_id;
        round = round;
        markdown = markdown;
        locked_at = none;
        frozen_at = h.now;
      } in
      (load_plan_revision g.revisions run_id round ≡ some frozen)
      × ((other : String) (other_round : ℕ)
          → is_revision other other_round frozen ≡ false
          → load_plan_revision g.revisions other other_round
            ≡ load_plan_revision h.revisions other other_round)
freeze-load run_id round markdown h = rw (freeze-revisions run_id round markdown h) (
  frozen_found _ h.revisions,
  λ other other_round e. others_kept _ h.revisions other other_round e,
)

later-load :
    (run_id : String) (round : ℕ) (r : PlanRevision) (h g : Host)
    → load_plan_revision h.revisions run_id round ≡ some r
    → is_some r.locked_at ≡ true
    → IsLater run_id round h g
    → load_plan_revision g.revisions run_id round ≡ some r
unfolding lock_plan_revision emit
later-load run_id round r h _ e l now_on = e
later-load run_id round r h _ e l (locking {g} other other_round later) =
    relock g.revisions run_id other round other_round g.now r
      (later-load run_id round r h g e l later) l
later-load run_id round r h _ e l (freezing {g} other other_round markdown later apart) =
    rw (freeze-revisions other other_round markdown g)
      (others_kept _ g.revisions run_id round apart ∙ later-load run_id round r h g e l later)
later-load run_id round r h _ e l (otherwise {g} {f} later same) =
    rw same (later-load run_id round r h g e l later)

refused_if_locked :
    (run_id : String) (round : ℕ) (r : PlanRevision) (h : Host)
    → load_plan_revision h.revisions run_id round ≡ some r
    → is_some r.locked_at ≡ true
    → (ensure_annotatable_revision run_id round h).1 ≡ false
unfolding ensure_annotatable_revision check_revision
refused_if_locked run_id round r h e l = ground (arith, e)

-- A revision that is there keeps its text when it is locked, and the time of its first lock if it was
-- locked before. It stays so, and the guard of every operation on its annotations refuses, whatever
-- comes after, in whatever state the session is: other locks, other revisions that are frozen, and
-- anything that leaves the table of revisions alone. (Freezing this revision anew unlocks it.)
pub locked_until_frozen :
    (run_id : String) (round : ℕ) (r : PlanRevision) (h g : Host)
    → load_plan_revision h.revisions run_id round ≡ some r
    → IsLater run_id round (lock_plan_revision run_id round h) g
    → (load_plan_revision g.revisions run_id round
        ≡ some (record r { locked_at = some (get_or_else r.locked_at h.now) }))
      × ((ensure_annotatable_revision run_id round g).1 ≡ false)
unfolding lock_plan_revision emit
locked_until_frozen run_id round r h g e later =
    (found, refused_if_locked run_id round _ g found refl)
  where
    found :
        load_plan_revision g.revisions run_id round
        ≡ some (record r { locked_at = some (get_or_else r.locked_at h.now) })
    found =
        later-load run_id round _ (lock_plan_revision run_id round h) g
          (load-lock h.revisions run_id round h.now r e) refl later
