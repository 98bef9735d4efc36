-- ===== src/Base/Lists.antt =====
-- Lists measured and indexed by native numbers, under the library's names, and options.
use Prim.Native.Nat.{ℕ, zero, suc, ◌+◌, compare, Ordering}
use mathlib.Core.Path.{◌≡◌, sym, ap, ◌∙◌}
use mathlib.Core.Bool.{Bool, true, false, ◌&&◌, ◌||◌}
use mathlib.Core.List.{List, [], ◌∷◌, ◌++◌, append-nil, append_assoc}
use mathlib.Core.Option.{Option, none, some}
use native.Mathlib.Omega.{arith}

module _ {ℓ} {A : Type ℓ} where
  abbrev pub length : List A → ℕ
  length [] = 0
  length (x ∷ xs) = suc (length xs)

  abbrev pub get_elem? : List A → ℕ → Option A
  get_elem? [] i = none
  get_elem? (x ∷ xs) zero = some x
  get_elem? (x ∷ xs) (suc i) = get_elem? xs i

  abbrev pub drop : ℕ → List A → List A
  drop zero xs = xs
  drop (suc n) [] = []
  drop (suc n) (x ∷ xs) = drop n xs

  abbrev pub is_empty : List A → Bool
  is_empty [] = true
  is_empty (x ∷ xs) = false

  -- `Array.prototype.some`.
  abbrev pub any : (A → Bool) → List A → Bool
  any p [] = false
  any p (x ∷ xs) = p x || any p xs

  -- `Array.prototype.every`.
  abbrev pub all : (A → Bool) → List A → Bool
  all p [] = true
  all p (x ∷ xs) = p x && all p xs

  -- `Array.prototype.filter`; the library's asks for a decision.
  abbrev pub keep : (A → Bool) → List A → List A
  keep p [] = []
  keep p (x ∷ xs) = let rest = keep p xs in elim (p x) [ true ↦ x ∷ rest | false ↦ rest ]

  -- `Array.prototype.find`.
  abbrev pub find : (A → Bool) → List A → Option A
  find p [] = none
  find p (x ∷ xs) = let rest = find p xs in elim (p x) [ true ↦ some x | false ↦ rest ]

  insert_by : (A → ℕ) → A → List A → List A
  insert_by key x [] = x ∷ []
  insert_by key x (y ∷ ys) =
      let rest = insert_by key x ys in
      elim (compare (key x) (key y)) [ Ordering.gt ↦ y ∷ rest | _ ↦ x ∷ y ∷ ys ]

  -- `ORDER BY key ASC`; rows of one key keep their order.
  unfoldable pub sort_by : (A → ℕ) → List A → List A
  unfolding insert_by
  sort_by key [] = []
  sort_by key (x ∷ xs) = insert_by key x (sort_by key xs)

  pub length-append : (xs ys : List A) → length (xs ++ ys) ≡ length xs + length ys
  length-append [] ys = omega arith
  length-append (x ∷ xs) ys = omega (arith, length-append xs ys)

  -- An outbox: what is given goes out at once if nothing waits, and waits behind the rest otherwise.
  pub append-empty_outbox :
      (x : A) (sent outbox : List A) {given : List A}
      → (sent ++ outbox) ≡ given
      → outbox ≡ []
      → ((sent ++ x ∷ []) ++ outbox) ≡ (given ++ x ∷ [])
  append-empty_outbox x sent outbox e nothing =
      ap (λ waiting. (sent ++ x ∷ []) ++ waiting) nothing
      ∙ append-nil (sent ++ x ∷ [])
      ∙ ap (λ xs. xs ++ x ∷ [])
          (sym (append-nil sent) ∙ sym (ap (λ waiting. sent ++ waiting) nothing) ∙ e)

  pub append-outbox :
      (x : A) (sent outbox : List A) {given : List A}
      → (sent ++ outbox) ≡ given
      → (sent ++ (outbox ++ x ∷ [])) ≡ (given ++ x ∷ [])
  append-outbox x sent outbox e =
      sym (append_assoc sent outbox (x ∷ [])) ∙ ap (λ xs. xs ++ x ∷ []) e

  abbrev pub is_some : Option A → Bool
  is_some none = false
  is_some (some a) = true

  -- `a ?? b`.
  abbrev pub get_or_else : Option A → A → A
  get_or_else none d = d
  get_or_else (some a) d = a

  abbrev pub last_or : A → List A → A
  last_or d [] = d
  last_or d (x ∷ xs) = last_or x xs

module _ {ℓ κ} {A : Type ℓ} (P : A → Type κ) where
  abbrev pub All : List A → Type κ
  All [] = Unit
  All (x ∷ xs) = P x × All xs
