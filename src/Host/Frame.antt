-- ===== src/Host/Frame.antt =====
-- The pending patch of the directory's row (`updateDirectory` of
-- packages/worker/src/orchestrator.ts).
use codevil.Base.{List, [], ◌∷◌, Option, none, some}
use codevil.Host.{Host, DirectoryPatch, update_directory}

-- `a ?? b`, where `b` may be missing too.
abbrev pub or_else {ℓ} : {A : Type ℓ} → Option A → Option A → Option A
or_else none b = b
or_else (some a) b = some a

-- The last value that is there, if any is.
abbrev pub last_some {ℓ} : {A : Type ℓ} → List (Option A) → Option A
last_some [] = none
last_some (o ∷ os) = or_else (last_some os) o

abbrev pub update_all : List DirectoryPatch → Host → Host
update_all [] h = h
update_all (p ∷ ps) h = update_all ps (update_directory p h)
