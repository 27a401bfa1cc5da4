-- ===== src/Replicas/Starting.antt =====
-- The candidates that a deployment of replicas has started, in a run that goes on.
use hostingservices.Common.{
  ℕ, suc, ◌≡◌, inl, inr, refl, true, false, List, [], ◌∷◌, ◌++◌, not, ◌||◌, any, In, arith,
}
use hostingservices.Common.Texts.{Text}
use hostingservices.Replicas.{ReplicaSpec, Replica, Faults, Run, Outcome, ok, throw}
use hostingservices.Replicas.Calls.{has_name, start_replica, start_all, created}
use hostingservices.Replicas.Ends.{Ends, then_run-Ends, if-Ends, In-append, In-any, any-none}

abbrev pub Anything : Run → Type 0
Anything r = Unit

In-snoc : {A : Type 0} (xs : List A) (x : A) → In x (xs ++ x ∷ [])
In-snoc [] x = inl refl
In-snoc (y ∷ xs) x = inr (In-snoc xs x)

module _ (f : Faults) (spec : ReplicaSpec) (gen : Text) where
  abbrev pub Has : Replica → Run → Type 0
  Has x r = In x r.cluster.replicas

  start_replica-Has :
      (name : Text) (i : ℕ) (r : Run) (x : Replica)
      → Has x r
      → Ends (Has x) Anything (start_replica f spec gen name i r)
  unfolding start_replica
  start_replica-Has name i r x h =
      if-Ends (Has x) Anything (not (f.creates i) || any (has_name name) r.cluster.replicas) _ _
        (λ e. tt)
        (λ e.
          if-Ends (Has x) Anything (not (f.starts i)) _ _ (λ e. tt)
            (λ e.
              if-Ends (Has x) Anything (not (f.inspects i)) _ _ (λ e. tt)
                (λ e. In-append x r.cluster.replicas (created spec gen name i true ∷ []) h)))

  start_all-Has :
      (ns : List Text) (i : ℕ) (r : Run) (x : Replica)
      → Has x r
      → Ends (Has x) Anything (start_all f spec gen ns i r)
  unfolding start_all
  start_all-Has [] i r x h = h
  start_all-Has (n ∷ ns) i r x h =
      then_run-Ends (Has x) (Has x) Anything (start_replica f spec gen n i r) _
        (start_replica-Has n i r x h) (λ q k. start_all-Has ns (suc i) q x k)

  -- A candidate runs, and its name was free before it was started.
  abbrev pub New : List Replica → Text → ℕ → Run → Type 0
  New before name i r = Has (created spec gen name i true) r × (any (has_name name) before ≡ false)

  start_replica-New :
      (name : Text) (i : ℕ) (r : Run)
      → Ends (New r.cluster.replicas name i) Anything (start_replica f spec gen name i r)
  unfolding start_replica
  start_replica-New name i r =
      let P = New r.cluster.replicas name i in
      if-Ends P Anything (not (f.creates i) || any (has_name name) r.cluster.replicas) _ _ (λ e. tt)
        (λ free.
          if-Ends P Anything (not (f.starts i)) _ _ (λ e. tt)
            (λ e.
              if-Ends P Anything (not (f.inspects i)) _ _ (λ e. tt)
                (λ e. (
                  In-snoc r.cluster.replicas (created spec gen name i true),
                  ground (arith, free),
                ))))

  -- The outcome of several properties.
  Ends-both :
      (P Q : Run → Type 0) (o : Outcome)
      → Ends P Anything o
      → Ends Q Anything o
      → Ends (λ r. P r × Q r) Anything o
  Ends-both P Q (ok r) h k = (h, k)
  Ends-both P Q (throw e r) h k = tt

  abbrev pub Holds : List Replica → Run → Type 0
  Holds before r = (x : Replica) → In x before → Has x r

  Ends-Holds :
      (before : List Replica) (o : Outcome)
      → ((x : Replica) → In x before → Ends (Has x) Anything o)
      → Ends (Holds before) Anything o
  Ends-Holds before (ok r) h = h
  Ends-Holds before (throw e r) h = tt

  abbrev pub Started : List Replica → List Text → ℕ → Run → Type 0
  Started before [] i r = Unit
  Started before (n ∷ ns) i r = New before n i r × Started before ns (suc i) r

  start_replica-New_before :
      (before : List Replica) (name : Text) (i : ℕ) (r : Run)
      → Holds before r
      → Ends (New before name i) Anything (start_replica f spec gen name i r)
  start_replica-New_before before name i r h =
      weaken (start_replica f spec gen name i r) (start_replica-New name i r)
    where
      weaken :
          (o : Outcome)
          → Ends (New r.cluster.replicas name i) Anything o
          → Ends (New before name i) Anything o
      weaken (ok q) (has, free) = (
        has,
        any-none (has_name name) before
            (λ x k. In-any (has_name name) r.cluster.replicas free (h x k)),
      )
      weaken (throw e q) k = tt

  pub start_all-Started :
      (before : List Replica) (ns : List Text) (i : ℕ) (r : Run)
      → Holds before r
      → Ends (Started before ns i) Anything (start_all f spec gen ns i r)
  unfolding start_all
  start_all-Started before [] i r h = tt
  start_all-Started before (n ∷ ns) i r h =
      let one = start_replica f spec gen n i r in
      then_run-Ends (λ q. New before n i q × Holds before q) (Started before (n ∷ ns) i) Anything
        one _
        (Ends-both (New before n i) (Holds before) one (start_replica-New_before before n i r h)
          (Ends-Holds before one (λ x k. start_replica-Has n i r x (h x k))))
        (λ q (new, holds).
          let rest = start_all f spec gen ns (suc i) q in
          let new_one = created spec gen n i true in
          flat rest (
            Ends-both (λ p. New before n i p) (Started before ns (suc i)) rest
              (keeps_new rest new.1 (start_all-Has ns (suc i) q new_one new.0))
              (start_all-Started before ns (suc i) q holds)))
    where
      keeps_new :
          (o : Outcome)
          → any (has_name n) before ≡ false
          → Ends (Has (created spec gen n i true)) Anything o
          → Ends (New before n i) Anything o
      keeps_new (ok p) free k = (k, free)
      keeps_new (throw e p) free k = tt

      flat :
          (o : Outcome)
          → Ends (λ p. New before n i p × Started before ns (suc i) p) Anything o
          → Ends (Started before (n ∷ ns) i) Anything o
      flat (ok p) k = k
      flat (throw e p) k = tt
