-- ===== src/Lifecycle/Tests.antt =====
-- Runs of apps/engine/src/deployment-state.ts, and its theorems at concrete inputs.
use mathlib.Core.List.{Perm}
use mathlib.Core.Option
use hostingservices.Common.{
  true, none, some, List, [], ◌∷◌, ◌≡◌, ◌≢◌, ◌↔◌, ◌⊎◌, refl, eq_iff, arith, lookup, values, insert,
  IsOrdered, In, All,
}
use hostingservices.Lifecycle.{
  DeploymentState, DeploymentRecord, Patch, Store, queued, deploying, health_check, live, failed,
  auto_recovery, stopped, can_transition, update_deployment, list_deployments, newer,
}
use hostingservices.Lifecycle.Diagram.{accepts, way_to_live, live_reachable, stopped_of_final}
use hostingservices.Lifecycle.Records.{
  store_after, record_after, IsKeyed, lookup-update, update-IsKeyed, list_deployments_lem,
}
use hostingservices.Lifecycle.History.{Update, replay, Asks, live_was_checked, stopped_is_final}

abbrev to_state : DeploymentState → Patch
to_state s = record {
  service_id = none;
  status = some s;
  image = none;
  container_id = none;
  url = none;
  error = none;
  updated_at = none;
  version = none;
  recovery_point_id = none;
}

abbrev at_state : DeploymentState → DeploymentRecord
at_state s = record {
  id = "d1";
  service_id = "web";
  status = s;
  image = none;
  container_id = none;
  url = none;
  error = none;
  created_at = 5;
  updated_at = 5;
  version = none;
  recovery_point_id = none;
}

abbrev one_deployment : DeploymentState → Store
one_deployment s = ("d1", at_state s) ∷ []

abbrev asked : List DeploymentState → List Update
asked [] = []
asked (s ∷ ss) = record { now = 9; id = "d1"; patch = to_state s } ∷ asked ss

-- A failed deployment may be recovered to live with no health check.
failed_recovers_unchecked : accepts queued (failed ∷ auto_recovery ∷ live ∷ []) ≡ true
unfolding accepts
failed_recovers_unchecked = refl

live_was_checked_example :
    Asks "d1" health_check (asked (health_check ∷ live ∷ []))
    ⊎ Asks "d1" failed (asked (health_check ∷ live ∷ []))
unfolding replay update_deployment lookup insert can_transition
live_was_checked_example =
    live_was_checked (asked (health_check ∷ live ∷ [])) "d1" (one_deployment deploying)
      (at_state deploying) (record (at_state live) { updated_at = 9 }) refl refl refl refl

stopped_is_final_case :
    (r : DeploymentRecord) × (lookup "d1" (replay (asked (live ∷ [])) (one_deployment stopped))
      ≡ some r)
    × (r.status ≡ stopped)
unfolding lookup
stopped_is_final_case =
    stopped_is_final (asked (live ∷ [])) "d1" (one_deployment stopped) (at_state stopped) refl refl

live_reachable_case :
    (failed ≢ stopped → (accepts failed (way_to_live failed) ≡ true) × In live (way_to_live failed))
    × ((ss : List DeploymentState) → accepts stopped ss ≡ true → All (λ t. t ≡ stopped) ss)
live_reachable_case = live_reachable failed

stopped_of_final_case :
    ((t : DeploymentState) → can_transition live t ≡ true → t ≡ live) ↔ (live ≡ stopped)
stopped_of_final_case = stopped_of_final live

lookup-update_case :
    lookup "d1" (store_after 9 "d1" (to_state health_check) (one_deployment deploying))
    ≡ Option.map
        (record_after 9 "d1" (to_state health_check) "d1")
        (lookup "d1" (one_deployment deploying))
lookup-update_case = lookup-update 9 "d1" (to_state health_check) (one_deployment deploying) "d1"

one-IsKeyed : IsKeyed (one_deployment deploying)
unfolding lookup
one-IsKeyed k r h = ground (arith, eq_iff "d1" k)

update-IsKeyed_case :
    IsKeyed (store_after 9 "d1" (to_state health_check) (one_deployment deploying))
update-IsKeyed_case =
    update-IsKeyed 9 "d1" (to_state health_check) (one_deployment deploying) one-IsKeyed

list_deployments_lem_case :
    Perm (list_deployments (one_deployment live)) (values (one_deployment live))
    × IsOrdered newer (list_deployments (one_deployment live))
list_deployments_lem_case = list_deployments_lem (one_deployment live)
