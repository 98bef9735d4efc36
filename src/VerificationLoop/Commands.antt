-- ===== src/VerificationLoop/Commands.antt =====
-- packages/sandbox-image/src/package-manager.ts and the commands that
-- packages/sandbox-image/src/verification.ts detects in a repository.
use Prim.Native.Char.{code}
use codevil.Base.{
  Bool, false, ◌||◌, String, List, [], ◌∷◌, Option, none, some, ◌==◌, str_eq, any, if◌then◌else◌,
}

pub data PackageManager : Type 0 where
  pnpm npm yarn bun : PackageManager

-- What `detectPackageManager` finds in one directory: the `packageManager` field of its
-- package.json, if that can be read, and the lock files.
pub record Directory : Type 0 where
  pub package_manager_field : Option String
  pub has_pnpm_lock : Bool
  pub has_package_lock : Bool
  pub has_npm_shrinkwrap : Bool
  pub has_yarn_lock : Bool
  pub has_bun_lock : Bool
  pub has_bun_lockb : Bool

-- The text before the first "@", `value.split("@", 1)[0]`.
unfoldable pub before_at : String → String
before_at String.[] = String.[]
before_at (String.◌∷◌ c s) =
    let rest = before_at s in if code c == 64 then String.[] else String.◌∷◌ c rest

unfoldable pub manager_named : String → Option PackageManager
manager_named name =
    if str_eq name "pnpm"
    then some pnpm
    else if str_eq name "npm"
    then some npm
    else if str_eq name "yarn"
    then some yarn
    else if str_eq name "bun"
    then some bun
    else none

unfoldable pub parse_declared_manager : Option String → Option PackageManager
parse_declared_manager none = none
parse_declared_manager (some value) = manager_named (before_at value)

unfoldable pub manager_of_locks : Directory → Option PackageManager
manager_of_locks d =
    if d.has_pnpm_lock
    then some pnpm
    else if d.has_package_lock || d.has_npm_shrinkwrap
    then some npm
    else if d.has_yarn_lock
    then some yarn
    else if d.has_bun_lock || d.has_bun_lockb
    then some bun
    else none

abbrev pub or_else {ℓ} : {A : Type ℓ} → Option A → Option A → Option A
or_else none o = o
or_else (some a) o = some a

-- The directories from the current one up to the root, in this order.
unfoldable pub search_directories : Option PackageManager → List Directory → Option PackageManager
search_directories fallback [] = fallback
search_directories fallback (d ∷ ds) =
    or_else (parse_declared_manager d.package_manager_field)
      (or_else (manager_of_locks d) (search_directories fallback ds))

unfoldable pub detect_package_manager :
    Option String → Option PackageManager → List Directory → Option PackageManager
detect_package_manager declared fallback directories =
    or_else (parse_declared_manager declared) (search_directories fallback directories)

-- What the detection of commands finds in a repository; `scripts` are those of its package.json.
pub record Repository : Type 0 where
  pub has_setup_sh : Bool
  pub has_verify_sh : Bool
  pub scripts : Option (List String)
  pub has_makefile : Bool
  pub directory : Directory

unfoldable pub detect_setup_command : Repository → Option String
detect_setup_command r =
    if r.has_setup_sh
    then some "bash .codevil/setup.sh"
    else elim (detect_package_manager none none (r.directory ∷ [])) [
      | none ↦ none
      | some manager ↦ elim manager [
        | pnpm ↦ some "pnpm install --frozen-lockfile"
        | npm ↦ some "npm install --no-audit --no-fund --prefer-offline"
        | yarn ↦ some "yarn install --immutable"
        | bun ↦ some "bun install --frozen-lockfile"
      ]
    ]

unfoldable pub test_command : Option PackageManager → String
test_command none = "npm test"
test_command (some pnpm) = "pnpm test"
test_command (some yarn) = "yarn test"
test_command (some bun) = "bun test"
test_command (some npm) = "npm test"

abbrev pub has_test : Option (List String) → Bool
has_test none = false
has_test (some scripts) = any (λ s. str_eq s "test") scripts

unfoldable pub detect_verification_command : Repository → Option String
detect_verification_command r =
    if r.has_verify_sh
    then some "bash .codevil/verify.sh"
    else if has_test r.scripts
    then some (test_command (detect_package_manager none none (r.directory ∷ [])))
    else if r.has_makefile
    then some "make test"
    else none
