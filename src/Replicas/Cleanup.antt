-- ===== src/Replicas/Cleanup.antt =====
-- What a deployment of replicas that fails leaves of the other containers and of the router's
-- files.
use hostingservices.Router.{safe}
use hostingservices.Common.{
  ℕ, suc, ◌≡◌, ◌⊎◌, inl, inr, refl, Bool, true, false, some, List, [], ◌∷◌, ◌++◌, not, ◌&&◌, ◌||◌,
  any, In, All, arith, ◌∙◌, Bool-cases, subst,
}
use hostingservices.Common.Texts.{Text, text_eq, text_eq_iff}
use hostingservices.Replicas.{
  ReplicaSpec, Replica, Route, servers, weighted, Cluster, Settings, Faults, Error, Run, fresh_run,
  Outcome, ok, throw, then_run,
}
use hostingservices.Replicas.Calls.{
  generation, names, has_name, write_route, start_replica, start_all, with_new, created,
}
use hostingservices.Replicas.Rollout.{
  healthy, shift_traffic, move_traffic, replace, restored, deploy_replicas, old_running, is_empty,
  is_routed, replica_count, passes, replica_health, caught, canary_weights, is_canary,
}
use hostingservices.Replicas.Ends.{
  Ends, then_run-Ends, if-Ends, In-append, In-any, any-none, Unnamed, In-remove_all,
}

-- Every start leaves the other containers, and what it starts has a new name.
module _ (spec : ReplicaSpec) (w : Cluster) where
  abbrev pub IsNew : Text → Type 0
  IsNew name = any (has_name name) w.replicas ≡ false

  pub record Kept (r : Run) : Type 0 where
    pub old : (x : Replica) → In x w.replicas → In x r.cluster.replicas
    pub new : All IsNew r.started
    pub others : (n : Text) → text_eq n (safe spec.name) ≡ false → r.cluster.routes n ≡ w.routes n
    pub unmoved : r.switched ≡ false → r.cluster.routes (safe spec.name) ≡ w.routes (safe spec.name)

  All-snoc : (xs : List Text) (x : Text) → All IsNew xs → IsNew x → All IsNew (xs ++ x ∷ [])
  All-snoc [] x h k = (k, tt)
  All-snoc (y ∷ xs) x h k = (h.0, All-snoc xs x h.1 k)

  Kept-with_new :
      (x : Replica) (started : List Text) (r : Run)
      → Kept r
      → All IsNew started
      → Kept (with_new x started r)
  Kept-with_new x started r k h = record {
    old = λ y i. In-append y r.cluster.replicas (x ∷ []) (k.old y i);
    new = h;
    others = k.others;
    unmoved = k.unmoved;
  }

  IsNew_of_free :
      (name : Text) (r : Run) → Kept r → any (has_name name) r.cluster.replicas ≡ false → IsNew name
  IsNew_of_free name r k h =
      any-none (has_name name) w.replicas
        (λ x i. In-any (has_name name) r.cluster.replicas h (k.old x i))

  abbrev Unmoved : Run → Type 0
  Unmoved r = Kept r × (r.switched ≡ false)

  module _ (f : Faults) (gen : Text) where
    start_replica-Ends :
        (name : Text) (i : ℕ) (r : Run)
        → Unmoved r
        → Ends Unmoved Unmoved (start_replica f spec gen name i r)
    unfolding start_replica
    start_replica-Ends name i r (k, u) =
        let made = Kept-with_new (created spec gen name i true) (r.started ++ name ∷ []) r k in
        if-Ends Unmoved Unmoved (not (f.creates i) || any (has_name name) r.cluster.replicas) _ _
          (λ e. (k, u))
          (λ e.
            let all_new = All-snoc r.started name k.new (IsNew_of_free name r k (free e)) in
            if-Ends Unmoved Unmoved (not (f.starts i)) _ _
              (λ e. (Kept-with_new (created spec gen name i false) r.started r k k.new, u))
              (λ e.
                if-Ends Unmoved Unmoved (not (f.inspects i)) _ _ (λ e. (made all_new, u))
                  (λ e. (made all_new, u))))
      where
        free :
            (not (f.creates i) || any (has_name name) r.cluster.replicas) ≡ false
            → any (has_name name) r.cluster.replicas ≡ false
        free e = ground (arith, e)

    start_all-Ends :
        (ns : List Text) (i : ℕ) (r : Run)
        → Unmoved r
        → Ends Unmoved Unmoved (start_all f spec gen ns i r)
    unfolding start_all
    start_all-Ends [] i r k = k
    start_all-Ends (n ∷ ns) i r k =
        then_run-Ends Unmoved Unmoved Unmoved (start_replica f spec gen n i r)
          (start_all f spec gen ns (suc i)) (start_replica-Ends n i r k) (start_all-Ends ns (suc i))

  module _ (s : Settings) (f : Faults) where
    -- An exception after the traffic was moved can be undone: there are old containers.
    abbrev pub Undoable : Run → Type 0
    Undoable r =
        Kept r
        × ((r.switched ≡ false)
            ⊎ ((is_empty (old_running spec w.replicas) ≡ false) × (is_routed s spec ≡ true)))

    healthy-Ends :
        (P : Run → Type 0) (round i : ℕ) (ns : List Text) (r : Run)
        → P r
        → Ends P P (healthy s f spec round i ns r)
    unfolding healthy
    healthy-Ends P round i [] r h = h
    healthy-Ends P round i (n ∷ ns) r h =
        if-Ends P P (passes (replica_health s f spec round i)) _ _
          (λ e. healthy-Ends P round (suc i) ns r h) (λ e. h)

    write_route-Ends :
        (P : Run → Type 0) (b : Bool) (route : Route) (r : Run)
        → Kept r
        → P r
        → Ends Kept P (write_route b spec.name route r)
    unfolding write_route
    write_route-Ends P false route r k h = h
    write_route-Ends P true route r k h = record {
      old = k.old;
      new = k.new;
      others = λ n e. rw e (k.others n e);
      unmoved = λ e. cc;
    }

    shift_traffic-Ends :
        (candidate : List Text) (round : ℕ) (weights : List ℕ) (r : Run)
        → (is_empty (old_running spec w.replicas) ≡ false) × (is_routed s spec ≡ true)
        → Kept r
        → Ends Kept Undoable
            (shift_traffic s f spec (old_running spec w.replicas) candidate round weights r)
    unfolding shift_traffic
    shift_traffic-Ends candidate round [] r back k = k
    shift_traffic-Ends candidate round (weight ∷ more) r back k =
        let route = weighted (old_running spec w.replicas) candidate weight in
        then_run-Ends Kept Kept Undoable (write_route (f.switches round) spec.name route r) _
          (write_route-Ends Undoable (f.switches round) route r k (k, inr back))
          (λ r k.
            then_run-Ends Kept Kept Undoable (healthy s f spec round 1 candidate r) _
              (undoable back (healthy s f spec round 1 candidate r)
                (healthy-Ends Kept round 1 candidate r k))
              (λ r k. shift_traffic-Ends candidate (suc round) more r back k))
      where
        undoable :
            (is_empty (old_running spec w.replicas) ≡ false) × (is_routed s spec ≡ true)
            → (o : Outcome) → Ends Kept Kept o
            → Ends Kept Undoable o
        undoable back (ok r) k = k
        undoable back (throw e r) k = (k, inr back)

    move_traffic-Ends :
        (candidate : List Text) (r : Run)
        → Unmoved r
        → Ends Kept Undoable (move_traffic s f spec (old_running spec w.replicas) candidate r)
    unfolding move_traffic
    move_traffic-Ends candidate r (k, u) =
        let stable = old_running spec w.replicas in
        if-Ends Kept Undoable (not (is_routed s spec)) _ _ (λ e. k)
          (λ routed.
            if-Ends Kept Undoable (is_canary spec.strategy && not (is_empty stable)) _ _
              (λ e.
                shift_traffic-Ends candidate 1 (canary_weights spec) r
                  (ground (arith, e), ground (arith, routed)) k)
              (λ e. write_route-Ends Undoable (f.switches 1) (servers candidate) r k (k, inl u)))

    Kept-fresh : Kept (fresh_run w)
    Kept-fresh = record { old = λ x i. i; new = tt; others = λ n e. refl; unmoved = λ e. refl }

    -- Up to the removal of the old containers.
    abbrev pub rollout : Text → Outcome
    rollout gen =
        let candidates = names spec gen (replica_count spec) 1 in
        then_run (start_all f spec gen candidates 1 (fresh_run w)) (λ r.
          then_run (healthy s f spec 0 1 r.started r)
            (move_traffic s f spec (old_running spec w.replicas) candidates))

    Undoable-of_Unmoved : (o : Outcome) → Ends Unmoved Unmoved o → Ends Unmoved Undoable o
    Undoable-of_Unmoved (ok r) h = h
    Undoable-of_Unmoved (throw e r) (k, u) = (k, inl u)

    rollout-Ends : (gen : Text) → Ends Kept Undoable (rollout gen)
    rollout-Ends gen =
        let candidates = names spec gen (replica_count spec) 1 in
        let start = start_all f spec gen candidates 1 (fresh_run w) in
        then_run-Ends Unmoved Kept Undoable start _
          (Undoable-of_Unmoved start
            (start_all-Ends f gen candidates 1 (fresh_run w) (Kept-fresh, refl)))
          (λ r u.
            let checked = healthy s f spec 0 1 r.started r in
            then_run-Ends Unmoved Kept Undoable checked _
              (Undoable-of_Unmoved checked (healthy-Ends Unmoved 0 1 r.started r u))
              (move_traffic-Ends candidates))

    replace-throw :
        (gen : Text) {e : Error} {r : Run}
        → replace s f spec gen w ≡ throw e r
        → rollout gen ≡ throw e r
    unfolding replace
    replace-throw gen h = last_ok _ (rollout gen) h
      where
        last_ok :
            (k : Run → Run) {e : Error} {r : Run} (o : Outcome)
            → then_run o (λ r. ok (k r)) ≡ throw e r
            → o ≡ throw e r
        last_ok k (ok r) h = absurd (cc)
        last_ok k (throw e r) h = h

    unnamed : (ns : List Text) (x : Replica) → In x w.replicas → All IsNew ns → All (Unnamed x) ns
    unnamed [] x i h = tt
    unnamed (n ∷ ns) x i h = (In-any (has_name n) w.replicas h.0 i, unnamed ns x i h.1)

    restored-others :
        (r : Run) (n : Text)
        → text_eq n (safe spec.name) ≡ false
        → (restored s f spec (old_running spec w.replicas) r).routes n ≡ r.cluster.routes n
    unfolding restored
    restored-others r n e = ground (arith, e)

    -- The route of the runtime's file is the old one, or leads to the containers that ran before.
    abbrev pub IsBack : Cluster → Type 0
    IsBack v =
        (v.routes (safe spec.name) ≡ w.routes (safe spec.name))
        ⊎ (v.routes (safe spec.name) ≡ some (servers (old_running spec w.replicas)))

    restored-IsBack :
        (r : Run)
        → f.restores ≡ true
        → Undoable r
        → IsBack (restored s f spec (old_running spec w.replicas) r)
    unfolding restored
    restored-IsBack r h (k, inl u) = inl (rw u (k.unmoved u))
    restored-IsBack r h (k, inr (some_old, routed)) = elim (Bool-cases r.switched) [
      | inl moved ↦ inr (
          rw (moved, some_old, routed, h, (text_eq_iff (safe spec.name) (safe spec.name)).1 refl)
            refl)
      | inr u ↦ inl (rw u (k.unmoved u))
    ]

    restored-old :
        (r : Run) (x : Replica)
        → Kept r
        → In x w.replicas
        → In x (restored s f spec (old_running spec w.replicas) r).replicas
    unfolding restored
    restored-old r x k i =
        In-remove_all f r.started r.cluster.replicas x (unnamed r.started x i k.new) (k.old x i)

    IsBack-if :
        (r : Run)
        → Undoable r
        → (f.restores ≡ false) ⊎ IsBack (restored s f spec (old_running spec w.replicas) r)
    IsBack-if r u = elim (Bool-cases f.restores) [
      | inl h ↦ inr (restored-IsBack r h u)
      | inr h ↦ inl h
    ]

    Unharmed : Cluster → Type 0
    Unharmed v =
        ((x : Replica) → In x w.replicas → In x v.replicas)
        × ((n : Text) → text_eq n (safe spec.name) ≡ false → v.routes n ≡ w.routes n)
        × ((f.restores ≡ false) ⊎ IsBack v)

    Undoable-Unharmed :
        (r : Run) → Undoable r → Unharmed (restored s f spec (old_running spec w.replicas) r)
    unfolding Unharmed
    Undoable-Unharmed r u = (
      λ x i. restored-old r x u.0 i,
      λ n e. restored-others r n e ∙ u.0.others n e,
      IsBack-if r u,
    )

    caught-throw :
        (cleanup : Run → Cluster) (o : Outcome) {e : Error} {r : Run}
        → caught cleanup o ≡ throw e r
        → (q : Run) × (o ≡ throw e q) × (cleanup q ≡ r.cluster)
    caught-throw cleanup (ok q) h = absurd (cc)
    caught-throw cleanup (throw e q) h = (q, ground (arith, h), ground (arith, h))

    throw-Unharmed :
        (drawn : Text) {e : Error} {r : Run}
        → deploy_replicas s f drawn spec w ≡ throw e r
        → Unharmed r.cluster
    unfolding deploy_replicas Unharmed
    throw-Unharmed drawn {e = e} {r = r} h = elim (Bool-cases (f.networks && f.lists)) [
      | inl both ↦
          let (q, raised, same) =
            caught-throw (restored s f spec (old_running spec w.replicas))
              (replace s f spec (generation drawn spec) w) {e = e} {r = r} (tried both) in
          subst Unharmed same (
            Undoable-Unharmed q (
              ended (replace-throw (generation drawn spec) raised)
                (rollout-Ends (generation drawn spec))))
      | inr off ↦ subst Unharmed (untouched_cluster off) (λ x i. i, λ n e. refl, inr (inl refl))
    ]
      where
        tried :
            (f.networks && f.lists) ≡ true
            → caught
                (restored s f spec (old_running spec w.replicas))
                (replace s f spec (generation drawn spec) w)
              ≡ throw e r
        tried both = ground (arith, h)

        untouched_cluster : (f.networks && f.lists) ≡ false → w ≡ r.cluster
        untouched_cluster off = ground (arith, h)

        ended : {o : Outcome} {q : Run} → o ≡ throw e q → Ends Kept Undoable o → Undoable q
        ended p k = subst (Ends Kept Undoable) p k

    -- A deployment of replicas that fails keeps every container that was there before as it was,
    -- and every file of the router but the one of the runtime's safe name. If this file can be
    -- written again, its route is the old one or leads to the containers that ran before.
    pub deploy_replicas-throw :
        (drawn : Text) {e : Error} {r : Run}
        → deploy_replicas s f drawn spec w ≡ throw e r
        → ((x : Replica) → In x w.replicas → In x r.cluster.replicas)
          × ((n : Text) → text_eq n (safe spec.name) ≡ false → r.cluster.routes n ≡ w.routes n)
          × ((f.restores ≡ false) ⊎ IsBack r.cluster)
    unfolding Unharmed
    deploy_replicas-throw drawn h = throw-Unharmed drawn h
