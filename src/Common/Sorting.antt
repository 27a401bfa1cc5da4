-- ===== src/Common/Sorting.antt =====
-- `Array.prototype.sort` with a comparison: stable, so an insertion sort from the right whose new
-- element goes before those that it does not exceed. `le a b` stands for `compare(a, b) <= 0`.
use mathlib.Core.Path.{◌≡◌, refl, subst}
use mathlib.Core.Logic.{◌⊎◌, ◌↔◌, inl, inr}
use mathlib.Core.Bool.{Bool, true, false}
use mathlib.Core.Option.{none, some}
use mathlib.Core.List.{List, [], ◌∷◌, Perm}
use mathlib.Core.List.Perm
use native.Mathlib.Omega.{arith}
use hostingservices.Common.Tests.{if◌then◌else◌, Bool-cases}
use hostingservices.Common.Lists.{first, keep, In, All}

module _ {ℓ} {A : Type ℓ} (le : A → A → Bool) where
  unfoldable pub insert_by : A → List A → List A
  insert_by x [] = x ∷ []
  insert_by x (y ∷ ys) = if le x y then x ∷ y ∷ ys else y ∷ insert_by x ys

  unfoldable pub sort_by : List A → List A
  unfolding insert_by
  sort_by [] = []
  sort_by (x ∷ xs) = insert_by x (sort_by xs)

  insert_by-perm : (x : A) (ys : List A) → Perm (insert_by x ys) (x ∷ ys)
  unfolding insert_by
  insert_by-perm x [] = Perm.refl (x ∷ [])
  insert_by-perm x (y ∷ ys) = elim (Bool-cases (le x y)) [
    | inl e ↦ rw e (Perm.refl (x ∷ y ∷ ys))
    | inr e ↦ rw e (Perm.trans (Perm.cons y (insert_by-perm x ys)) (Perm.swap x y ys))
  ]

  -- Sorting loses and adds nothing.
  pub sort_by-perm : (xs : List A) → Perm (sort_by xs) xs
  unfolding sort_by
  sort_by-perm [] = Perm.refl []
  sort_by-perm (x ∷ xs) = Perm.trans (insert_by-perm x (sort_by xs)) (Perm.cons x (sort_by-perm xs))

-- The comparison is total, and transitive through the elements that satisfy `P`.
pub record IsOrder {A : Type 0} (P : A → Type 0) (le : A → A → Bool) : Type 0 where
  pub total : (a b : A) → le a b ≡ false → le b a ≡ true
  pub trans : (a b c : A) → P b → le a b ≡ true → le b c ≡ true → le a c ≡ true

module _ {A : Type 0} (le : A → A → Bool) where
  -- Every element is at most each that follows it.
  abbrev pub IsOrdered : List A → Type 0
  IsOrdered [] = Unit
  IsOrdered (x ∷ xs) = All (λ y. le x y ≡ true) xs × IsOrdered xs

  All-insert_by :
      (Q : A → Type 0) (y : A) (ys : List A) → Q y → All Q ys → All Q (insert_by le y ys)
  unfolding insert_by
  All-insert_by Q y [] h a = (h, tt)
  All-insert_by Q y (z ∷ zs) h (p, a) = elim (Bool-cases (le y z)) [
    | inl e ↦ rw e (h, (p, a))
    | inr e ↦ rw e (p, All-insert_by Q y zs h a)
  ]

  -- What holds of every element holds of every element of the sorted list.
  pub All-sort_by : (Q : A → Type 0) (xs : List A) → All Q xs → All Q (sort_by le xs)
  unfolding sort_by
  All-sort_by Q [] a = tt
  All-sort_by Q (x ∷ xs) (h, a) = All-insert_by Q x (sort_by le xs) h (All-sort_by Q xs a)

  module _ {P : A → Type 0} (o : IsOrder P le) where
    All-weaken :
        (x y : A) (ys : List A)
        → P y
        → le x y ≡ true
        → All (λ z. le y z ≡ true) ys
        → All (λ z. le x z ≡ true) ys
    All-weaken x y [] q h a = tt
    All-weaken x y (z ∷ zs) q h (p, a) = (o.trans x y z q h p, All-weaken x y zs q h a)

    insert_by-IsOrdered :
        (x : A) (ys : List A) → All P ys → IsOrdered ys → IsOrdered (insert_by le x ys)
    unfolding insert_by
    insert_by-IsOrdered x [] q h = (tt, tt)
    insert_by-IsOrdered x (y ∷ ys) (q, qs) (a, h) = elim (Bool-cases (le x y)) [
      | inl e ↦ rw e ((e, All-weaken x y ys q e a), (a, h))
      | inr e ↦
          rw e (
            All-insert_by (λ z. le y z ≡ true) x ys (o.total x y e) a,
            insert_by-IsOrdered x ys qs h,
          )
    ]

    -- The result of the sort is in order.
    pub sort_by-IsOrdered : (xs : List A) → All P xs → IsOrdered (sort_by le xs)
    unfolding sort_by
    sort_by-IsOrdered [] q = tt
    sort_by-IsOrdered (x ∷ xs) (p, q) =
        insert_by-IsOrdered x (sort_by le xs) (All-sort_by P xs q) (sort_by-IsOrdered xs q)

module _ {A : Type 0} (le : A → A → Bool) where
  In-insert_by : (x y : A) (ys : List A) → (In y (insert_by le x ys)) ↔ ((x ≡ y) ⊎ In y ys)
  unfolding insert_by
  In-insert_by x y [] = (λ h. h, λ h. h)
  In-insert_by x y (z ∷ zs) = elim (Bool-cases (le x z)) [
    | inl e ↦ rw e (λ h. h, λ h. h)
    | inr e ↦
        rw e (
          λ h. ground (arith, (In-insert_by x y zs).0),
          λ h. ground (arith, (In-insert_by x y zs).1),
        )
  ]

  -- The sorted list has the elements of the list.
  pub In-sort_by : (xs : List A) (y : A) → (In y (sort_by le xs)) ↔ In y xs
  unfolding sort_by
  In-sort_by [] y = (λ h. h, λ h. h)
  In-sort_by (x ∷ xs) y = (
    λ h. ground (arith, (In-insert_by x y (sort_by le xs)).0, (In-sort_by xs y).0),
    λ h. ground (arith, (In-insert_by x y (sort_by le xs)).1, (In-sort_by xs y).1),
  )

  ne-nil_of_insert_by : (x : A) (ys : List A) → first (insert_by le x ys) ≡ none → ⊥
  unfolding insert_by
  ne-nil_of_insert_by x [] h = cc
  ne-nil_of_insert_by x (y ∷ ys) h = ground arith

  -- Only of the empty list the sorted list has no head.
  pub sort_by-none : (xs : List A) → first (sort_by le xs) ≡ none → xs ≡ []
  unfolding sort_by
  sort_by-none [] h = refl
  sort_by-none (x ∷ xs) h = absurd (ne-nil_of_insert_by x (sort_by le xs) h)

  All-In : (P : A → Type 0) (ys : List A) {y : A} → All P ys → In y ys → P y
  All-In P [] a h = absurd h
  All-In P (z ∷ zs) (p, a) (inl e) = subst P e p
  All-In P (z ∷ zs) (p, a) (inr h) = All-In P zs a h

  least_of_IsOrdered :
      (ys : List A) {x y : A}
      → IsOrdered le ys
      → first ys ≡ some x
      → In y ys
      → (x ≡ y) ⊎ (le x y ≡ true)
  least_of_IsOrdered [] s h i = cc
  least_of_IsOrdered (z ∷ zs) (a, s) h (inl e) = inl (cc)
  least_of_IsOrdered (z ∷ zs) {x} {y} (a, s) h (inr i) =
      let e : z ≡ x = cc in inr (subst (λ w. le w y ≡ true) e (All-In (λ w. le z w ≡ true) zs a i))

  -- The head of the sorted list is at most every element of the list.
  pub sort_by-least :
      {P : A → Type 0} (o : IsOrder P le) (xs : List A) {x y : A}
      → All P xs
      → first (sort_by le xs) ≡ some x
      → In y xs
      → (x ≡ y) ⊎ (le x y ≡ true)
  sort_by-least o xs {y = y} q h i =
      least_of_IsOrdered (sort_by le xs) (sort_by-IsOrdered le o xs q) h ((In-sort_by xs y).1 i)

module _ {A : Type 0} where
  pub All-keep : (p : A → Bool) (xs : List A) → All (λ x. p x ≡ true) (keep p xs)
  All-keep p [] = tt
  All-keep p (x ∷ xs) = ground (arith, All-keep p xs)

  pub All-weaken_to :
      {P Q : A → Type 0} (f : (x : A) → P x → Q x) (xs : List A) → All P xs → All Q xs
  All-weaken_to f [] a = tt
  All-weaken_to f (x ∷ xs) (p, a) = (f x p, All-weaken_to f xs a)
