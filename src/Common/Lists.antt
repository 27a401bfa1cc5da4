-- ===== src/Common/Lists.antt =====
-- Lists: length by the native numbers, searching and filtering by a Boolean test, and predicates
-- on lists by recursion.
use Prim.Native.Nat.{ℕ, suc, ◌+◌, ◌≤◌}
use mathlib.Core.Path.{◌≡◌, refl}
use mathlib.Core.Logic.{◌⊎◌, ◌↔◌}
use mathlib.Core.Bool.{Bool, true, false, ◌&&◌, ◌||◌}
use mathlib.Core.Option.{Option, none, some}
use mathlib.Core.List.{List, [], ◌∷◌, ◌++◌}
use native.Mathlib.Omega.{arith}
use hostingservices.Common.Tests.{if◌then◌else◌}

module _ {ℓ} {A : Type ℓ} where
  abbrev pub length : List A → ℕ
  length [] = 0
  length (x ∷ xs) = suc (length xs)

  pub length-append : (xs ys : List A) → length (xs ++ ys) ≡ length xs + length ys
  length-append [] ys = omega arith
  length-append (x ∷ xs) ys = omega (arith, length-append xs ys)

  -- `xs.find(p)`
  abbrev pub find : (A → Bool) → List A → Option A
  find p [] = none
  find p (x ∷ xs) = if p x then some x else find p xs

  -- `xs.filter(p)`
  abbrev pub keep : (A → Bool) → List A → List A
  keep p [] = []
  keep p (x ∷ xs) = if p x then x ∷ keep p xs else keep p xs

  -- `xs.some(p)` and `xs.every(p)`
  abbrev pub any : (A → Bool) → List A → Bool
  any p [] = false
  any p (x ∷ xs) = p x || any p xs

  abbrev pub all : (A → Bool) → List A → Bool
  all p [] = true
  all p (x ∷ xs) = p x && all p xs

  -- `xs[0]`
  abbrev pub first : List A → Option A
  first [] = none
  first (x ∷ xs) = some x

module _ {A : Type 0} where
  -- `x` stands in the list.
  abbrev pub In : A → List A → Type 0
  In x [] = ⊥
  In x (y ∷ ys) = (y ≡ x) ⊎ In x ys

module _ {ℓ κ} {A : Type ℓ} (P : A → Type κ) where
  abbrev pub All : List A → Type κ
  All [] = Unit
  All (x ∷ xs) = P x × All xs

module _ {A : Type 0} (p : A → Bool) where
  -- What `find` returns passes the test and stands in the list.
  pub find_sound : (xs : List A) {x : A} → find p xs ≡ some x → (p x ≡ true) × In x xs
  find_sound [] h = cc
  find_sound (y ∷ xs) {x} h = ground (arith, find_sound xs {x = x})

  -- What `keep` returns passes the test and stood in the list.
  pub In-keep : (xs : List A) {x : A} → In x (keep p xs) → (p x ≡ true) × In x xs
  In-keep [] h = absurd h
  In-keep (y ∷ xs) {x} h = ground (arith, In-keep xs {x = x})

  -- What stood in the list and passes the test is kept.
  pub keep-In : (xs : List A) {x : A} → In x xs → p x ≡ true → In x (keep p xs)
  keep-In [] h t = absurd h
  keep-In (y ∷ xs) {x} h t = ground (arith, keep-In xs {x = x})

  pub keep-nil : (xs : List A) → (keep p xs ≡ []) ↔ All (λ x. p x ≡ false) xs
  keep-nil [] = (λ h. tt, λ a. refl)
  keep-nil (x ∷ xs) = (λ h. ground (arith, (keep-nil xs).0), λ a. ground (arith, (keep-nil xs).1))

  pub length-keep : (xs : List A) → length (keep p xs) ≤ length xs
  length-keep [] = omega arith
  length-keep (y ∷ xs) = ground (arith, length-keep xs)

module _ {A : Type 0} where
  pub first-In : (xs : List A) {x : A} → first xs ≡ some x → In x xs
  first-In [] h = cc
  first-In (y ∷ ys) h = ground arith
