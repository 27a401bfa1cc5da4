-- ===== src/Web/Conditions.antt =====
-- Conditions of the page apps/web/app/deploy/page.tsx as Boolean tests and as statements.
use hostingservices.Common.{
  ◌↔◌, In, eq_iff, String, Bool, true, false, List, [], ◌∷◌, ◌≡◌, refl, sym, ◌&&◌, str_eq, arith,
  Bool-cases, inl, inr, if◌then◌else◌,
}
use hostingservices.EngineApi.{is_one_of}

-- A test that is asked where the condition holds.
pub when_iff :
    (b t : Bool) {P Q : Type 0}
    → (b ≡ true) ↔ P
    → (t ≡ true) ↔ Q
    → ((if b then t else true) ≡ true) ↔ (P → Q)
when_iff true t p q = (λ h x. q.0 h, λ f. q.1 (f (p.0 refl)))
when_iff false t p q = (λ h x. cc (p.1 x), λ f. refl)

pub unless_iff :
    (b t : Bool) {P Q : Type 0}
    → (b ≡ true) ↔ P
    → (t ≡ true) ↔ Q
    → ((if b then true else t) ≡ true) ↔ ((P → ⊥) → Q)
unless_iff true t p q = (λ h x. absurd (x (p.0 refl)), λ f. refl)
unless_iff false t p q = (λ h x. q.0 h, λ f. q.1 (f (λ y. cc (p.1 y))))

pub both_iff :
    (a b : Bool) {P Q : Type 0} → (a ≡ true) ↔ P → (b ≡ true) ↔ Q → ((a && b) ≡ true) ↔ (P × Q)
both_iff true b p q = (λ h. (p.0 refl, q.0 h), λ x. q.1 x.1)
both_iff false b p q = (λ h. cc, λ x. p.1 x.0)

pub and_assoc : (a b c : Bool) → (a && b && c) ≡ (a && (b && c))
and_assoc true b c = refl
and_assoc false b c = refl

pub is_one_of_iff : (names : List String) (v : String) → (is_one_of names v ≡ true) ↔ In v names
is_one_of_iff [] v = (λ h. cc, λ i. absurd i)
is_one_of_iff (n ∷ names) v = (
  λ h. elim (Bool-cases (str_eq v n)) [
    | inl e ↦ inl (sym ((eq_iff v n).0 e))
    | inr e ↦ inr ((is_one_of_iff names v).0 (rw e at h))
  ],
  λ i. elim i [
    | inl e ↦ rw ((eq_iff v n).1 (sym e)) refl
    | inr j ↦ ground (arith, (is_one_of_iff names v).1 j)
  ],
)
