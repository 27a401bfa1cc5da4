-- ===== src/Replicas/Tests.antt =====
-- Deployments of two replicas over one that runs, and ticks of the autoscaler.
use hostingservices.Router.{safe}
use hostingservices.Common.{
  ℕ, ◌+◌, ◌≤◌, ◌<◌, ◌≡◌, ◌⊎◌, inl, refl, Bool, true, false, Option, none, some, [], ◌∷◌, In, arith,
  not, ◌==◌, sort_by,
}
use hostingservices.Common.Texts.{Text, text, text_eq}
use hostingservices.Health.{Attempt, inspected, wait_for_healthy_container, with_defaults, poll}
use hostingservices.Deploy.Daemon.{gone}
use hostingservices.Replicas.{
  ReplicaSpec, Replica, Route, servers, weighted, Cluster, Settings, Faults, Run, ok, throw, canary,
  not_healthy, AutoscaleSpec,
}
use hostingservices.Replicas.Calls.{generation, names, set_route}
use hostingservices.Replicas.Rollout.{deploy_replicas, old_running, is_routed, replica_count}
use hostingservices.Replicas.Cleanup.{IsBack, deploy_replicas-throw}
use hostingservices.Replicas.Success.{Candidates, IsMoved, deploy_replicas-ok}
use hostingservices.Replicas.Scaling.{tick, tick_cools, next_target, next_target_bounds}

abbrev shop : ReplicaSpec
shop = record {
  name = text "shop";
  image = text "shop:2";
  replicas = 2;
  health_path = none;
  health_mode = none;
  is_public = none;
  strategy = some canary;
  deployment_id = none;
  generation_id = some (text "g2");
  canary_steps = some (100 ∷ 10 ∷ 100 ∷ []);
}

abbrev settings : Settings
settings = record { traefik_enabled = true; healthcheck_required = true }

abbrev seen : Bool → Attempt
seen running = record { inspection = inspected running none; status_code = none; took_ms = 1 }

abbrev works : Faults
works = record {
  networks = true;
  lists = true;
  creates = λ i. true;
  starts = λ i. true;
  inspects = λ i. true;
  ports = λ i. 0;
  switches = λ round. true;
  restores = true;
  removal = λ name. gone;
  attempts = λ round i k. seen true;
}

-- The candidates stop while they get all of the traffic.
abbrev runs_in : ℕ → Bool
runs_in round = not (round == 2)

abbrev stops : Faults
stops = record works { attempts = λ round i k. seen (runs_in round) }

abbrev replica : Text → Text → Text → ℕ → Replica
replica name image gen i = record {
  name = name;
  runtime = text "shop";
  image = image;
  running = true;
  index = i;
  generation = gen;
}

abbrev old_one : Replica
old_one = replica (text "shop-g1-replica-1") (text "shop:1") (text "g1") 1

abbrev old_route : Text → Option Route
old_route n = none

abbrev before : Cluster
before = record { replicas = old_one ∷ []; routes = old_route }

abbrev old_name : Text
old_name = text "shop-g1-replica-1"

abbrev one : Text
one = text "shop-g2-replica-1"

abbrev two : Text
two = text "shop-g2-replica-2"

abbrev shift : ℕ → (Text → Option Route) → Text → Option Route
shift weight = set_route (text "shop") (weighted (old_name ∷ []) (one ∷ two ∷ []) weight)

abbrev after : Run
after = record {
  cluster = record {
    replicas =
        replica one (text "shop:2") (text "g2") 1 ∷ replica two (text "shop:2") (text "g2") 2 ∷ [];
    routes = shift 100 (shift 10 old_route);
  };
  started = one ∷ two ∷ [];
  switched = true;
}

abbrev undone : Run
undone = record after {
  cluster = record {
    replicas = old_one ∷ [];
    routes = set_route (text "shop") (servers (old_name ∷ [])) (shift 100 (shift 10 old_route));
  };
}

deploys : deploy_replicas settings works (text "d") shop before ≡ ok after
unfolding deploy_replicas text_eq wait_for_healthy_container with_defaults poll sort_by safe
deploys = refl

fails : deploy_replicas settings stops (text "d") shop before ≡ throw not_healthy undone
unfolding deploy_replicas text_eq wait_for_healthy_container with_defaults poll sort_by safe
fails = refl

deploy_replicas-ok_example :
    let gen = generation (text "d") shop in
    let candidates = names shop gen (replica_count shop) 1 in
    Candidates shop gen candidates 1 after.cluster.replicas
    × ((is_routed settings shop ≡ false)
        ⊎ IsMoved
            (old_running shop before.replicas)
            candidates
            (after.cluster.routes (safe (text "shop"))))
deploy_replicas-ok_example =
    deploy_replicas-ok settings works (text "d") shop before (inl refl) deploys

deploy_replicas-throw_example :
    ((x : Replica) → In x before.replicas → In x undone.cluster.replicas)
    × ((n : Text) → text_eq n (safe (text "shop")) ≡ false → undone.cluster.routes n ≡ old_route n)
    × ((true ≡ false) ⊎ IsBack shop before settings stops undone.cluster)
deploy_replicas-throw_example = deploy_replicas-throw shop before settings stops (text "d") fails

abbrev policy : AutoscaleSpec
policy = record { min = 1; max = 4; cpu_percent = 60; interval_seconds = some 1 }

next_target_bounds_case :
    let target = next_target policy 75 2 in
    (target ≤ 3)
    × (2 ≤ target + 1)
    × (target ≤ 4)
    × (1 ≤ target)
    × ((target ≤ 2) ⊎ (70 < 75))
    × ((2 ≤ target) ⊎ (95 < 60))
next_target_bounds_case = next_target_bounds policy 75 2

tick_cools_case :
    tick settings works policy shop 99 25_000 (some 10_000) before ≡ (before, some 10_000)
tick_cools_case = tick_cools settings works policy shop 99 25_000 10_000 before (omega arith)
