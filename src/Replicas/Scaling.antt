-- ===== src/Replicas/Scaling.antt =====
-- The autoscaler's loop: `reconcileScale` and the tick of `startAutoscaler` of
-- apps/engine/src/replicas.ts. Percentages are whole numbers and times are milliseconds; a tick
-- gets the processors' load that it measures.
use hostingservices.Common.{
  ℕ, zero, suc, ◌+◌, ◌-◌, ◌*◌, ◌≤◌, ◌≡◌, ◌⊎◌, Bool, Option, some, List, [], ◌∷◌, not, ◌&&◌, ◌||◌,
  ◌<◌, ltb, leb, ◌==◌, get_or, keep, map, length, min, max, sort_by, if◌then◌else◌, arith,
}
use hostingservices.Common.Texts.{Text, text_eq}
use hostingservices.Replicas.{
  AutoscaleSpec, ReplicaSpec, Replica, servers, Cluster, Settings, Faults, network_calls,
  list_calls, not_healthy, Run, fresh_run, Outcome, ok, throw, then_run,
}
use hostingservices.Replicas.Calls.{names, remove_all, write_route, start_replica}
use hostingservices.Replicas.Rollout.{replica_health, passes, name_of, is_routed}

abbrev is_own : ReplicaSpec → (gen : Text) → Replica → Bool
is_own spec gen r = r.running && text_eq r.runtime spec.name && text_eq r.generation gen

-- `listContainers` with `all: false` and the labels of the runtime and the generation.
unfoldable pub own_replicas : ReplicaSpec → (gen : Text) → Cluster → List Replica
own_replicas spec gen w = keep (is_own spec gen) w.replicas

abbrev drop : {A : Type 0} → ℕ → List A → List A
drop zero xs = xs
drop (suc n) [] = []
drop (suc n) (x ∷ xs) = drop n xs

abbrev take : {A : Type 0} → ℕ → List A → List A
take zero xs = []
take (suc n) [] = []
take (suc n) (x ∷ xs) = x ∷ take n xs

-- The loop that adds replicas; one that is not healthy is left.
unfoldable pub add_replicas :
    Settings → Faults → ReplicaSpec → (gen : Text) → List Text → (i : ℕ) → Run → Outcome
unfolding start_replica replica_health
add_replicas s f spec gen [] i r = ok r
add_replicas s f spec gen (name ∷ more) i r = then_run (start_replica f spec gen name i r) (λ r.
    let rest = add_replicas s f spec gen more (suc i) r in
    if passes (replica_health s f spec 0 i) then rest else throw not_healthy r)

abbrev has_higher_index : Replica → Replica → Bool
has_higher_index a b = leb b.index a.index

-- The replicas with the highest indices.
unfoldable pub removable : (count : ℕ) → List Replica → List Text
removable count items = map name_of (take count (sort_by has_higher_index items))

abbrev pub bounded_target : ℕ → ℕ
bounded_target target = max 1 (min 20 target)

unfoldable pub resize :
    Settings → Faults → ReplicaSpec → (gen : Text) → (bounded : ℕ) → Cluster → Outcome
unfolding add_replicas remove_all removable own_replicas names
resize s f spec gen bounded w =
    let items = own_replicas spec gen w in
    let current = length items in
    if ltb current bounded
    then add_replicas s f spec gen (drop current (names spec gen bounded 1)) (suc current)
        (fresh_run w)
    else ok (
        fresh_run
          (record w { replicas = remove_all f (removable (current - bounded) items) w.replicas }))

-- `reconcileScale`; the traffic is led to the replicas that then run.
unfoldable pub reconcile_scale :
    Settings → Faults → ReplicaSpec → (gen : Text) → (target : ℕ) → Cluster → Outcome
unfolding resize own_replicas write_route
reconcile_scale s f spec gen target w =
    let bounded = bounded_target target in
    if not f.networks
    then throw network_calls (fresh_run w)
    else if not f.lists
    then throw list_calls (fresh_run w)
    else if bounded == length (own_replicas spec gen w)
    then ok (fresh_run w)
    else then_run (resize s f spec gen bounded w) (λ r.
      if is_routed s spec
      then write_route (f.switches 1) spec.name
          (servers (map name_of (own_replicas spec gen r.cluster))) r
      else ok r)

unfoldable pub interval_ms : AutoscaleSpec → ℕ
interval_ms a = max 10 (min 300 (get_or a.interval_seconds 30)) * 1_000

-- The thresholds are 10 above and 20 below the percentage that is asked for.
unfoldable pub next_target : AutoscaleSpec → (cpu current : ℕ) → ℕ
next_target a cpu current =
    if ltb (a.cpu_percent + 10) cpu && ltb current a.max
    then current + 1
    else if ltb (cpu + 20) a.cpu_percent && ltb a.min current
    then current - 1
    else current

abbrev pub is_cooling : AutoscaleSpec → (now : ℕ) → (last_scale : Option ℕ) → Bool
is_cooling a now last_scale = ltb now (get_or last_scale 0 + interval_ms a * 2)

-- What a tick leaves: the cluster, and the time of the last scaling.
abbrev scaled : (now : ℕ) → (last_scale : Option ℕ) → Outcome → Cluster × Option ℕ
scaled now last_scale (ok r) = (r.cluster, some now)
scaled now last_scale (throw e r) = (r.cluster, last_scale)

unfoldable pub tick :
    Settings
    → Faults
    → AutoscaleSpec
    → ReplicaSpec
    → (cpu now : ℕ) → (last_scale : Option ℕ) → Cluster
    → Cluster × Option ℕ
unfolding own_replicas next_target reconcile_scale interval_ms
tick s f a spec cpu now last_scale w =
    let gen = get_or spec.generation_id [] in
    let current = length (own_replicas spec gen w) in
    let target = next_target a cpu current in
    if current == 0 || is_cooling a now last_scale || target == current
    then (w, last_scale)
    else scaled now last_scale (reconcile_scale s f spec gen target w)

-- The autoscaler moves the number of replicas by one at most, never beyond the policy's bounds or
-- further out of them, and asks for more only above, for fewer only below the percentage.
pub next_target_bounds :
    (a : AutoscaleSpec) (cpu current : ℕ)
    → let target = next_target a cpu current in
      (target ≤ current + 1)
      × (current ≤ target + 1)
      × (target ≤ max current a.max)
      × (min current a.min ≤ target)
      × ((target ≤ current) ⊎ (a.cpu_percent + 10 < cpu))
      × ((current ≤ target) ⊎ (cpu + 20 < a.cpu_percent))
unfolding next_target
next_target_bounds a cpu current = ground arith

-- A tick changes the cluster only if two intervals, of 10 to 300 seconds each, have passed since
-- the last scaling.
pub tick_cools :
    (s : Settings) (f : Faults) (a : AutoscaleSpec) (spec : ReplicaSpec) (cpu now last_scale : ℕ)
    (w : Cluster)
    → now < last_scale + 20_000
    → tick s f a spec cpu now (some last_scale) w ≡ (w, some last_scale)
unfolding tick interval_ms
tick_cools s f a spec cpu now last_scale w h = ground (arith, h)
