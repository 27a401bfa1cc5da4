-- ===== src/Replicas/Rollout.antt =====
-- `deployReplicas` of apps/engine/src/replicas.ts: the health checks of the candidates, the
-- canary, the removal of the old containers and the cleanup.
use hostingservices.Router.{safe}
use Prim.Native.String.{String}
use hostingservices.Common.{
  ℕ, suc, Bool, true, false, Option, none, some, List, [], ◌∷◌, not, ◌&&◌, ◌||◌, leb, ◌==◌, get_or,
  keep, map, is_some, if◌then◌else◌, min, max, sort_by,
}
use hostingservices.Common.Texts.{Text, text_eq, is_blank}
use hostingservices.Health.{
  HealthMode, http, process, Result, is_healthy, with_defaults, wait_for_healthy_container,
}
use hostingservices.Replicas.{
  ReplicaSpec, Strategy, canary, Replica, servers, weighted, Cluster, Settings, Faults,
  network_calls, list_calls, not_healthy, Run, fresh_run, Outcome, ok, throw, then_run,
}
use hostingservices.Replicas.Calls.{
  generation, names, set_route, write_route, remove_all, start_all,
}

abbrev pub http_url : Faults → ReplicaSpec → ℕ → Option String
http_url f spec i =
    if is_blank (get_or spec.health_path []) || f.ports i == 0
    then none
    else some "http://127.0.0.1"

abbrev pub mode_of : ReplicaSpec → Bool → HealthMode
mode_of spec has_url = get_or spec.health_mode (if has_url then http else process)

unfoldable pub replica_health : Settings → Faults → ReplicaSpec → (round i : ℕ) → Option Result
replica_health s f spec round i =
    let url = http_url f spec i in
    wait_for_healthy_container s.healthcheck_required
      (with_defaults (some 120_000) none url (some (mode_of spec (is_some url))))
      (f.attempts round i)

abbrev pub passes : Option Result → Bool
passes (some (is_healthy c)) = true
passes _ = false

-- `healthy`, from the candidate with the index `i` on; a wait that does not end well throws. A
-- wait never lacks a result (`Health.Termination.wait_total`).
unfoldable pub healthy : Settings → Faults → ReplicaSpec → (round i : ℕ) → List Text → Run → Outcome
unfolding replica_health
healthy s f spec round i [] r = ok r
healthy s f spec round i (name ∷ more) r =
    let rest = healthy s f spec round (suc i) more r in
    if passes (replica_health s f spec round i) then rest else throw not_healthy r

-- `[...new Set(steps)]`
abbrev pub distinct : List ℕ → List ℕ
distinct [] = []
distinct (x ∷ xs) = x ∷ keep (λ y. not (y == x)) (distinct xs)

abbrev pub in_percent : ℕ → Bool
in_percent x = leb 1 x && leb x 100

abbrev pub given_steps : Option (List ℕ) → List ℕ
given_steps (some (x ∷ xs)) = x ∷ xs
given_steps _ = 5 ∷ 25 ∷ 50 ∷ 100 ∷ []

unfoldable pub canary_weights : ReplicaSpec → List ℕ
canary_weights spec = sort_by leb (distinct (keep in_percent (given_steps spec.canary_steps)))

-- The rounds of the canary.
unfoldable pub shift_traffic :
    Settings
    → Faults
    → ReplicaSpec
    → (stable candidate : List Text) → (round : ℕ) → List ℕ
    → Run
    → Outcome
unfolding write_route healthy
shift_traffic s f spec stable candidate round [] r = ok r
shift_traffic s f spec stable candidate round (weight ∷ more) r =
    then_run (write_route (f.switches round) spec.name (weighted stable candidate weight) r) (λ r.
      then_run (healthy s f spec round 1 candidate r)
        (shift_traffic s f spec stable candidate (suc round) more))

abbrev pub is_old : ReplicaSpec → Replica → Bool
is_old spec r = text_eq r.runtime spec.name

abbrev pub name_of : Replica → Text
name_of r = r.name

abbrev pub old_names : ReplicaSpec → List Replica → List Text
old_names spec rs = map name_of (keep (is_old spec) rs)

abbrev pub old_running : ReplicaSpec → List Replica → List Text
old_running spec rs = map name_of (keep (λ (r : Replica). r.running) (keep (is_old spec) rs))

abbrev pub is_empty : List Text → Bool
is_empty [] = true
is_empty (x ∷ xs) = false

abbrev pub is_canary : Option Strategy → Bool
is_canary (some canary) = true
is_canary _ = false

abbrev pub is_routed : Settings → ReplicaSpec → Bool
is_routed s spec = get_or spec.is_public true && s.traefik_enabled

abbrev pub replica_count : ReplicaSpec → ℕ
replica_count spec = max 1 (min 20 spec.replicas)

-- The traffic goes to the candidates, at once or by the canary's steps.
unfoldable pub move_traffic :
    Settings → Faults → ReplicaSpec → (stable candidate : List Text) → Run → Outcome
unfolding shift_traffic write_route canary_weights
move_traffic s f spec stable candidate r =
    if not (is_routed s spec)
    then ok r
    else if is_canary spec.strategy && not (is_empty stable)
    then shift_traffic s f spec stable candidate 1 (canary_weights spec) r
    else write_route (f.switches 1) spec.name (servers candidate) r

-- The body of the `try` up to the removal of the old containers, and this removal.
unfoldable pub replace : Settings → Faults → ReplicaSpec → (gen : Text) → Cluster → Outcome
unfolding start_all healthy move_traffic remove_all names
replace s f spec gen w =
    let candidates = names spec gen (replica_count spec) 1 in
    then_run
      (then_run (start_all f spec gen candidates 1 (fresh_run w)) (λ r.
        then_run (healthy s f spec 0 1 r.started r)
          (move_traffic s f spec (old_running spec w.replicas) candidates)))
      (λ r. ok (record r {
        cluster = record {
          replicas = remove_all f (old_names spec w.replicas) r.cluster.replicas;
          routes = r.cluster.routes;
        };
      }))

-- The `catch`: the traffic goes back if it was moved, and what was started is removed.
unfoldable pub restored : Settings → Faults → ReplicaSpec → (stable : List Text) → Run → Cluster
unfolding remove_all
restored s f spec stable r = record {
  replicas = remove_all f r.started r.cluster.replicas;
  routes =
      if r.switched && not (is_empty stable) && is_routed s spec && f.restores
      then set_route (safe spec.name) (servers stable) r.cluster.routes
      else r.cluster.routes;
}

abbrev pub caught : (Run → Cluster) → Outcome → Outcome
caught cleanup (ok r) = ok r
caught cleanup (throw e r) = throw e (record r { cluster = cleanup r })

unfoldable pub deploy_replicas :
    Settings → Faults → (drawn : Text) → ReplicaSpec → Cluster → Outcome
unfolding replace restored generation
deploy_replicas s f drawn spec w =
    if not f.networks
    then throw network_calls (fresh_run w)
    else if not f.lists
    then throw list_calls (fresh_run w)
    else caught (restored s f spec (old_running spec w.replicas))
        (replace s f spec (generation drawn spec) w)
