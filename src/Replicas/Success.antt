-- ===== src/Replicas/Success.antt =====
-- What a deployment of replicas that succeeds has done.
use hostingservices.Router.{safe}
use hostingservices.Common.{
  ℕ, suc, ◌≡◌, ◌⊎◌, inl, inr, refl, Bool, true, false, Option, some, List, [], ◌∷◌, not, ◌&&◌, keep,
  map, In, All, arith, sym, ◌∙◌, Bool-cases, subst, In-keep,
}
use hostingservices.Common.Texts.{Text, text_eq, text_eq_iff}
use hostingservices.Replicas.{
  ReplicaSpec, Replica, Route, servers, weighted, Cluster, Settings, Faults, Run, fresh_run,
  Outcome, ok, throw,
}
use hostingservices.Replicas.Calls.{
  generation, names, has_name, write_route, remove_all, start_all, created,
}
use hostingservices.Replicas.Rollout.{
  healthy, shift_traffic, move_traffic, replace, restored, deploy_replicas, old_running, old_names,
  is_old, name_of, is_empty, is_routed, replica_count, passes, replica_health, caught, given_steps,
  canary_weights, is_canary,
}
use hostingservices.Replicas.Cleanup.{rollout}
use hostingservices.Replicas.Weights.{last, last-canary_weights}
use hostingservices.Replicas.Ends.{Ends, then_run-Ends, if-Ends, In-any, Unnamed, In-remove_all}
use hostingservices.Replicas.Starting.{Anything, Started, start_all-Started}

-- The containers of the names, with the indices from `i` on, run the image.
abbrev pub Candidates : ReplicaSpec → (gen : Text) → List Text → ℕ → List Replica → Type 0
Candidates spec gen [] i rs = Unit
Candidates spec gen (n ∷ ns) i rs =
    In (created spec gen n i true) rs × Candidates spec gen ns (suc i) rs

-- The traffic leads to the candidates only.
abbrev pub IsMoved : (stable candidate : List Text) → Option Route → Type 0
IsMoved stable candidate route =
    (route ≡ some (servers candidate)) ⊎ (route ≡ some (weighted stable candidate 100))

module _ (s : Settings) (f : Faults) (spec : ReplicaSpec) (gen : Text) where
  healthy-same :
      (round i : ℕ) (ns : List Text) (r : Run)
      → Ends (λ q. q ≡ r) Anything (healthy s f spec round i ns r)
  unfolding healthy
  healthy-same round i [] r = refl
  healthy-same round i (n ∷ ns) r =
      if-Ends (λ q. q ≡ r) Anything (passes (replica_health s f spec round i)) _ _
        (λ e. healthy-same round (suc i) ns r) (λ e. tt)

  -- The containers are those of a run, and the runtime's route is given.
  abbrev Routed : List Replica → Option Route → Run → Type 0
  Routed rs route q = (q.cluster.replicas ≡ rs) × (q.cluster.routes (safe spec.name) ≡ route)

  write_route-Routed :
      (b : Bool) (route : Route) (r : Run)
      → Ends (Routed r.cluster.replicas (some route)) Anything (write_route b spec.name route r)
  unfolding write_route
  write_route-Routed false route r = tt
  write_route-Routed true route r =
      (refl, rw ((text_eq_iff (safe spec.name) (safe spec.name)).1 refl) refl)

  -- The route after the rounds of the canary.
  abbrev last_route : (stable candidate : List Text) → Option Route → List ℕ → Option Route
  last_route stable candidate route [] = route
  last_route stable candidate route (w ∷ ws) =
      last_route stable candidate (some (weighted stable candidate w)) ws

  shift_traffic-Routed :
      (stable candidate : List Text) (round : ℕ) (ws : List ℕ) (rs : List Replica)
      (route : Option Route) (r : Run)
      → Routed rs route r
      → Ends
          (Routed rs (last_route stable candidate route ws))
          Anything
          (shift_traffic s f spec stable candidate round ws r)
  unfolding shift_traffic
  shift_traffic-Routed stable candidate round [] rs route r h = h
  shift_traffic-Routed stable candidate round (w ∷ ws) rs route r h =
      let next = weighted stable candidate w in
      let All_ok = Routed rs (last_route stable candidate (some next) ws) in
      then_run-Ends (Routed r.cluster.replicas (some next)) All_ok Anything
        (write_route (f.switches round) spec.name next r) _
        (write_route-Routed (f.switches round) next r)
        (λ q (same, routed).
          then_run-Ends (λ p. p ≡ q) All_ok Anything (healthy s f spec round 1 candidate q) _
            (healthy-same round 1 candidate q)
            (λ p e.
              shift_traffic-Routed stable candidate (suc round) ws rs (some next) p
                (subst (Routed rs (some next)) (sym e) (same ∙ h.0, routed))))

  last_route_of_last :
      (stable candidate : List Text) (route : Option Route) (ws : List ℕ) {n : ℕ}
      → last ws ≡ some n
      → last_route stable candidate route ws ≡ some (weighted stable candidate n)
  unfolding last
  last_route_of_last stable candidate route [] {n = n} h = cc
  last_route_of_last stable candidate route (w ∷ []) {n = n} h = ground (arith, h)
  last_route_of_last stable candidate route (w ∷ v ∷ ws) {n = n} h =
      last_route_of_last stable candidate (some (weighted stable candidate w)) (v ∷ ws) h

  Arrives : (stable candidate : List Text) → List Replica → Run → Type 0
  Arrives stable candidate rs q =
      (q.cluster.replicas ≡ rs)
      × ((is_routed s spec ≡ false) ⊎ IsMoved stable candidate (q.cluster.routes (safe spec.name)))

  move_traffic-Arrives :
      (stable candidate : List Text) (r : Run)
      → last (canary_weights spec) ≡ some 100
      → Ends
          (Arrives stable candidate r.cluster.replicas)
          Anything
          (move_traffic s f spec stable candidate r)
  unfolding move_traffic Arrives
  move_traffic-Arrives stable candidate r h =
      let P = Arrives stable candidate r.cluster.replicas in
      let shifted = shift_traffic s f spec stable candidate 1 (canary_weights spec) r in
      let written = write_route (f.switches 1) spec.name (servers candidate) r in
      if-Ends P Anything (not (is_routed s spec)) _ _ (λ e. (refl, inl (off e)))
        (λ e.
          if-Ends P Anything (is_canary spec.strategy && not (is_empty stable)) _ _
            (λ e. by_weight shifted (
              shift_traffic-Routed stable candidate 1 (canary_weights spec) r.cluster.replicas
                (r.cluster.routes (safe spec.name)) r (refl, refl)))
            (λ e. at_once written (write_route-Routed (f.switches 1) (servers candidate) r)))
    where
      off : not (is_routed s spec) ≡ true → is_routed s spec ≡ false
      off e = ground (arith, e)

      by_weight :
          (o : Outcome)
          → Ends
              (Routed r.cluster.replicas (
                last_route stable candidate
                  (r.cluster.routes (safe spec.name))
                  (canary_weights spec)))
              Anything
              o
          → Ends (Arrives stable candidate r.cluster.replicas) Anything o
      by_weight (ok q) (same, routed) =
          (same, inr (inr (routed ∙ last_route_of_last stable candidate _ (canary_weights spec) h)))
      by_weight (throw e q) k = tt

      at_once :
          (o : Outcome)
          → Ends (Routed r.cluster.replicas (some (servers candidate))) Anything o
          → Ends (Arrives stable candidate r.cluster.replicas) Anything o
      at_once (ok q) (same, routed) = (same, inr (inl routed))
      at_once (throw e q) k = tt

  different : (a b : Text) → text_eq a b ≡ false → text_eq b a ≡ false
  different a b h = elim (Bool-cases (text_eq b a)) [
    | inr e ↦ e
    | inl e ↦ absurd (true_not_false (sym ((text_eq_iff a b).1 (sym ((text_eq_iff b a).0 e))) ∙ h))
  ]
    where
      true_not_false : true ≡ false → ⊥
      true_not_false e = cc

  Unnamed-old :
      (x : Replica) (ys : List Replica)
      → ((y : Replica) → In y ys → has_name x.name y ≡ false)
      → All (Unnamed x) (map name_of ys)
  Unnamed-old x [] h = tt
  Unnamed-old x (y ∷ ys) h =
      (different y.name x.name (h y (inl refl)), Unnamed-old x ys (λ z i. h z (inr i)))

  Candidates-remove_all :
      (w : Cluster) (ns : List Text) (i : ℕ) (q : Run)
      → Started f spec gen w.replicas ns i q
      → Candidates spec gen ns i (remove_all f (old_names spec w.replicas) q.cluster.replicas)
  Candidates-remove_all w [] i q h = tt
  Candidates-remove_all w (n ∷ ns) i q ((has, free), rest) =
      let x = created spec gen n i true in
      (
        In-remove_all f (old_names spec w.replicas) q.cluster.replicas x
            (Unnamed-old x (keep (is_old spec) w.replicas)
              (λ y k. In-any (has_name n) w.replicas free (In-keep (is_old spec) w.replicas k).1))
            has,
        Candidates-remove_all w ns (suc i) q rest,
      )

  Started-same :
      (before : List Replica) (ns : List Text) (i : ℕ) (r q : Run)
      → q.cluster.replicas ≡ r.cluster.replicas
      → Started f spec gen before ns i r
      → Started f spec gen before ns i q
  Started-same before [] i r q e h = tt
  Started-same before (n ∷ ns) i r q e ((has, free), rest) = (
    (subst (In (created spec gen n i true)) (sym e) has, free),
    Started-same before ns (suc i) r q e rest,
  )

  module _ (w : Cluster) (h : last (canary_weights spec) ≡ some 100) where
    abbrev candidates : List Text
    candidates = names spec gen (replica_count spec) 1

    abbrev stable : List Text
    stable = old_running spec w.replicas

    abbrev Done : Run → Type 0
    Done q =
        Started f spec gen w.replicas candidates 1 q
        × ((is_routed s spec ≡ false)
            ⊎ IsMoved stable candidates (q.cluster.routes (safe spec.name)))

    Done-of_Arrives :
        (r : Run) (o : Outcome)
        → Started f spec gen w.replicas candidates 1 r
        → Ends (Arrives stable candidates r.cluster.replicas) Anything o
        → Ends Done Anything o
    unfolding Arrives
    Done-of_Arrives r (ok q) h (same, moved) =
        (Started-same w.replicas candidates 1 r q same h, moved)
    Done-of_Arrives r (throw e q) h k = tt

    rollout-Done : Ends Done Anything (rollout spec w s f gen)
    rollout-Done =
        let Begun = Started f spec gen w.replicas candidates 1 in
        then_run-Ends Begun Done Anything (start_all f spec gen candidates 1 (fresh_run w)) _
          (start_all-Started f spec gen w.replicas candidates 1 (fresh_run w) (λ x i. i))
          (λ r begun.
            then_run-Ends (λ q. q ≡ r) Done Anything (healthy s f spec 0 1 r.started r) _
              (healthy-same 0 1 r.started r)
              (λ q e.
                Done-of_Arrives q (move_traffic s f spec stable candidates q)
                  (subst Begun (sym e) begun) (move_traffic-Arrives stable candidates q h)))

    abbrev Finished : Run → Type 0
    Finished r =
        Candidates spec gen candidates 1 r.cluster.replicas
        × ((is_routed s spec ≡ false)
            ⊎ IsMoved stable candidates (r.cluster.routes (safe spec.name)))

    replace-Finished : Ends Finished Anything (replace s f spec gen w)
    unfolding replace
    replace-Finished =
        then_run-Ends Done Finished Anything (rollout spec w s f gen) _ rollout-Done
          (λ q (started, moved). (Candidates-remove_all w candidates 1 q started, moved))

-- A deployment of replicas that succeeds leaves every candidate running with the image, whatever
-- else it removes, and with the proxy the file of the runtime's safe name leads to the candidates
-- only, if 100 is among the steps of the canary.
pub deploy_replicas-ok :
    (s : Settings) (f : Faults) (drawn : Text) (spec : ReplicaSpec) (w : Cluster) {r : Run}
    → In 100 (given_steps spec.canary_steps)
    → deploy_replicas s f drawn spec w ≡ ok r
    → let gen = generation drawn spec in
      let candidates = names spec gen (replica_count spec) 1 in
      Candidates spec gen candidates 1 r.cluster.replicas
      × ((is_routed s spec ≡ false)
          ⊎ IsMoved (old_running spec w.replicas) candidates (r.cluster.routes (safe spec.name)))
unfolding deploy_replicas
deploy_replicas-ok s f drawn spec w {r = r} i h =
    subst (Ends (Finished s f spec gen w last_step) Anything) replaced
      (replace-Finished s f spec gen w last_step)
  where
    gen : Text
    gen = generation drawn spec

    last_step : last (canary_weights spec) ≡ some 100
    last_step = last-canary_weights spec i

    caught-ok : (cleanup : Run → Cluster) (o : Outcome) → caught cleanup o ≡ ok r → o ≡ ok r
    caught-ok cleanup (ok q) e = e
    caught-ok cleanup (throw x q) e = absurd (cc)

    replaced : replace s f spec gen w ≡ ok r
    replaced =
        caught-ok (restored s f spec (old_running spec w.replicas)) (replace s f spec gen w)
          (ground (arith, h))
