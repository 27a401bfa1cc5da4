-- ===== src/Api/Schema.antt =====
-- The tests of the API's schema (apps/api/src/index.ts) beside those of the engine
-- (apps/engine/src/index.ts), field by field.
use Prim.Native.String.{◌++◌ as ◌+++◌, len}
use text.Mathlib.TextPositions.{len-append}
use hostingservices.Common.{
  ◌≤◌, String, Bool, true, false, Option, none, some, List, [], ◌∷◌, ◌≡◌, refl, ap, not, all, any,
  str_eq, eq_iff, arith, &&-parts, Bool-cases, inl, inr, ltb,
}
use hostingservices.EngineApi.{
  Number, Autoscale, is_bad_number, given_and, is_one_of, is_unknown, bad_steps, bad_autoscale,
  bad_texts,
}
use hostingservices.Api.Bodies.{
  if_given, is_filled, has_length, is_command, is_autoscale, are_steps,
}

abbrev pub modes : List String
modes = "auto" ∷ "http" ∷ "docker" ∷ "process" ∷ []

abbrev pub strategies : List String
strategies = "rolling" ∷ "blue_green" ∷ "canary" ∷ []

pub append-filled : (s t : String) → 1 ≤ len s → str_eq (s +++ t) "" ≡ false
append-filled s t h = elim (Bool-cases (str_eq (s +++ t) "")) [
  | inr e ↦ e
  | inl e ↦
      let n : len (s +++ t) ≡ 0 = ap len ((eq_iff (s +++ t) "").0 e) in
      absurd (omega (arith, n, len-append s t, h))
]

pub filled : (v : String) → is_filled v ≡ true → str_eq v "" ≡ false
filled v h = elim (Bool-cases (str_eq v "")) [
  | inr e ↦ e
  | inl e ↦ let n : len v ≡ 0 = ap len ((eq_iff v "").0 e) in ground (arith, n)
]

pub known :
    (names : List String) (v : String)
    → is_one_of names v ≡ true
    → is_unknown names (some v) ≡ false
known names v h = ground (arith, h)

module _ {A : Type 0} where
  pub given-false :
      (o : Option A) (good bad : A → Bool)
      → ((a : A) → good a ≡ true → bad a ≡ false)
      → if_given o good ≡ true
      → given_and o bad ≡ false
  given-false none good bad f h = refl
  given-false (some a) good bad f h = f a h

  all-any :
      (good bad : A → Bool)
      → ((a : A) → good a ≡ true → bad a ≡ false)
      → (xs : List A) → all good xs ≡ true
      → any bad xs ≡ false
  all-any good bad f [] h = refl
  all-any good bad f (x ∷ xs) h =
      let (a, b) = &&-parts (good x) (all good xs) h in rw (f x a) (all-any good bad f xs b)

pub not-true : (b : Bool) → not b ≡ true → b ≡ false
not-true true h = cc
not-true false h = refl

pub steps : (xs : List Number) → are_steps xs ≡ true → bad_steps (some xs) ≡ false
steps xs h =
    let (few, good) = &&-parts _ (all (λ n. not (is_bad_number 1 100 n)) xs) h in
    ground (
      arith,
      few,
      all-any (λ n. not (is_bad_number 1 100 n)) (is_bad_number 1 100) (λ n. not-true _) xs good,
    )

pub command : (vs : List String) → is_command vs ≡ true → bad_texts 32 2000 (some vs) ≡ false
command vs h =
    let (few, good) = &&-parts _ (all (has_length 1 2000) vs) h in
    ground (
      arith,
      few,
      all-any (has_length 1 2000) (λ v. ltb 2000 (len v)) (λ v k. ground (arith, k)) vs good,
    )

pub autoscale : (a : Autoscale) → is_autoscale a ≡ true → bad_autoscale (some a) ≡ false
autoscale a h = ground (arith, h)
