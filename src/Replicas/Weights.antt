-- ===== src/Replicas/Weights.antt =====
-- The weights of the canary: they are percentages in ascending order, and end at 100 if 100 is
-- among the steps.
use hostingservices.Common.{
  ℕ, ◌≤◌, ◌≡◌, inl, inr, refl, true, Option, none, some, List, [], ◌∷◌, not, ◌==◌, leb, keep, In,
  All, keep-In, In-keep, arith, Bool-cases, IsOrder, IsOrdered, sort_by-IsOrdered, In-sort_by,
  ==_iff, leb→le, sym, subst, ap,
}
use hostingservices.Replicas.{ReplicaSpec}
use hostingservices.Replicas.Rollout.{distinct, in_percent, given_steps, canary_weights}

unfoldable pub last : List ℕ → Option ℕ
last [] = none
last (x ∷ []) = some x
last (x ∷ y ∷ ys) = last (y ∷ ys)

In-distinct : (x : ℕ) (xs : List ℕ) → In x xs → In x (distinct xs)
In-distinct x [] h = h
In-distinct x (y ∷ ys) (inl e) = inl e
In-distinct x (y ∷ ys) (inr i) = elim (Bool-cases (x == y)) [
  | inl same ↦ inl (sym ((==_iff x y).0 same))
  | inr other ↦ inr (keep-In (λ z. not (z == y)) (distinct ys) (In-distinct x ys i) (rw other refl))
]

distinct-In : (x : ℕ) (xs : List ℕ) → In x (distinct xs) → In x xs
distinct-In x [] h = h
distinct-In x (y ∷ ys) (inl e) = inl e
distinct-In x (y ∷ ys) (inr i) =
    inr (distinct-In x ys (In-keep (λ z. not (z == y)) (distinct ys) i).1)

abbrev Everything : ℕ → Type 0
Everything n = Unit

leb-IsOrder : IsOrder Everything leb
leb-IsOrder = record { total = λ a b h. ground arith; trans = λ a b c t h k. ground arith }

everything : (xs : List ℕ) → All Everything xs
everything [] = tt
everything (x ∷ xs) = (tt, everything xs)

-- The weights are from 1 to 100.
pub canary_weights-in_percent :
    (spec : ReplicaSpec) (x : ℕ) → In x (canary_weights spec) → in_percent x ≡ true
unfolding canary_weights
canary_weights-in_percent spec x i =
    let steps = given_steps spec.canary_steps in
    (In-keep in_percent steps (
      distinct-In x (keep in_percent steps)
        ((In-sort_by leb (distinct (keep in_percent steps)) x).0 i))).0

In-canary_weights :
    (spec : ReplicaSpec) (x : ℕ)
    → in_percent x ≡ true
    → In x (given_steps spec.canary_steps)
    → In x (canary_weights spec)
unfolding canary_weights
In-canary_weights spec x p i =
    let steps = given_steps spec.canary_steps in
    (In-sort_by leb (distinct (keep in_percent steps)) x).1
      (In-distinct x (keep in_percent steps) (keep-In in_percent steps i p))

all_In : (P : ℕ → Type 0) (xs : List ℕ) (x : ℕ) → All P xs → In x xs → P x
all_In P [] x h i = absurd i
all_In P (y ∷ xs) x h (inl e) = subst P e h.0
all_In P (y ∷ xs) x h (inr i) = all_In P xs x h.1 i

-- The last of an ordered list is its greatest element.
last-greatest :
    (n : ℕ) (xs : List ℕ)
    → IsOrdered leb xs
    → ((x : ℕ) → In x xs → x ≤ n)
    → In n xs
    → last xs ≡ some n
unfolding last
last-greatest n [] o b i = absurd i
last-greatest n (x ∷ []) o b (inl e) = ap some e
last-greatest n (x ∷ []) o b (inr i) = absurd i
last-greatest n (x ∷ y ∷ ys) (h, o) b (inl e) =
    last-greatest n (y ∷ ys) o (λ z i. b z (inr i)) (inl (next h.0 (b y (inr (inl refl)))))
  where
    next : leb x y ≡ true → y ≤ n → y ≡ n
    next h k = omega (arith, e, leb→le x y h, k)
last-greatest n (x ∷ y ∷ ys) (h, o) b (inr i) = last-greatest n (y ∷ ys) o (λ z i. b z (inr i)) i

pub canary_weights-IsOrdered : (spec : ReplicaSpec) → IsOrdered leb (canary_weights spec)
unfolding canary_weights
canary_weights-IsOrdered spec =
    let steps = distinct (keep in_percent (given_steps spec.canary_steps)) in
    sort_by-IsOrdered leb leb-IsOrder steps (everything steps)

-- The canary ends at 100 if 100 is among its steps.
pub last-canary_weights :
    (spec : ReplicaSpec)
    → In 100 (given_steps spec.canary_steps)
    → last (canary_weights spec) ≡ some 100
last-canary_weights spec i =
    last-greatest 100 (canary_weights spec) (canary_weights-IsOrdered spec)
      (λ x k. at_most x (canary_weights-in_percent spec x k)) (In-canary_weights spec 100 refl i)
  where
    at_most : (x : ℕ) → in_percent x ≡ true → x ≤ 100
    at_most x h = ground (arith, h)
