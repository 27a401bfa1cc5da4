-- ===== src/Replicas/Ends.antt =====
-- What holds of a run however it ends, and which containers outlive removals.
use hostingservices.Common.{
  ◌≡◌, inl, inr, refl, Bool, true, false, List, [], ◌∷◌, ◌++◌, not, if◌then◌else◌, any, map, In,
  All, keep-In, arith, ap, ◌∙◌, subst,
}
use hostingservices.Common.Texts.{Text}
use hostingservices.Deploy.Daemon.{Removal, gone, only_stopped, untouched}
use hostingservices.Replicas.{Replica, Faults, Run, Outcome, ok, throw, then_run}
use hostingservices.Replicas.Calls.{has_name, removed, remove_all, stop}

-- The run satisfies `P` if the outcome is a success and `Q` if it is an exception.
abbrev pub Ends : (P Q : Run → Type 0) → Outcome → Type 0
Ends P Q (ok r) = P r
Ends P Q (throw e r) = Q r

pub then_run-Ends :
    (P Q R : Run → Type 0) (o : Outcome) (k : Run → Outcome)
    → Ends P R o
    → ((r : Run) → P r → Ends Q R (k r))
    → Ends Q R (then_run o k)
then_run-Ends P Q R (ok r) k h g = g r h
then_run-Ends P Q R (throw e r) k h g = h

pub if-Ends :
    (P Q : Run → Type 0) (b : Bool) (x y : Outcome)
    → (b ≡ true → Ends P Q x)
    → (b ≡ false → Ends P Q y)
    → Ends P Q (if b then x else y)
if-Ends P Q true x y h g = h refl
if-Ends P Q false x y h g = g refl

pub In-append : {A : Type 0} (x : A) (xs ys : List A) → In x xs → In x (xs ++ ys)
In-append x [] ys h = absurd h
In-append x (y ∷ xs) ys (inl e) = inl e
In-append x (y ∷ xs) ys (inr h) = inr (In-append x xs ys h)

pub In-any :
    {A : Type 0} (p : A → Bool) (xs : List A) {x : A} → any p xs ≡ false → In x xs → p x ≡ false
In-any p [] h i = absurd i
In-any p (y ∷ xs) {x} h (inl e) = subst (λ z. p z ≡ false) e (ground (arith, h))
In-any p (y ∷ xs) h (inr i) = In-any p xs (ground (arith, h)) i

pub any-none :
    {A : Type 0} (p : A → Bool) (xs : List A) → ((x : A) → In x xs → p x ≡ false) → any p xs ≡ false
any-none p [] h = refl
any-none p (y ∷ xs) h = rw (h y (inl refl)) (any-none p xs (λ x i. h x (inr i)))

In-stop :
    (name : Text) (rs : List Replica) (x : Replica)
    → has_name name x ≡ false
    → In x rs
    → In x (map (stop name) rs)
In-stop name [] x h i = absurd i
In-stop name (y ∷ rs) x h (inl e) = inl (ap (stop name) e ∙ rw h refl)
In-stop name (y ∷ rs) x h (inr i) = inr (In-stop name rs x h i)

-- A container with another name outlives a removal.
In-removed :
    (o : Removal) (name : Text) (rs : List Replica) (x : Replica)
    → has_name name x ≡ false
    → In x rs
    → In x (removed o name rs)
In-removed gone name rs x h i = keep-In (λ (r : Replica). not (has_name name r)) rs i (rw h refl)
In-removed only_stopped name rs x h i = In-stop name rs x h i
In-removed untouched name rs x h i = i

abbrev pub Unnamed : Replica → Text → Type 0
Unnamed x name = has_name name x ≡ false

pub In-remove_all :
    (f : Faults) (ns : List Text) (rs : List Replica) (x : Replica)
    → All (Unnamed x) ns
    → In x rs
    → In x (remove_all f ns rs)
unfolding remove_all
In-remove_all f [] rs x h i = i
In-remove_all f (n ∷ ns) rs x h i =
    In-remove_all f ns (removed (f.removal n) n rs) x h.1 (In-removed (f.removal n) n rs x h.0 i)
