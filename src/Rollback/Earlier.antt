-- ===== src/Rollback/Earlier.antt =====
-- The rollbacks that do not name their target: the handler `rollback` of
-- apps/api/src/auth-routes.ts and `rollbackDeployment` of apps/api/src/rollback.ts.
use Prim.Native.String.{◌++◌ as ◌+++◌}
use hostingservices.Common.{
  String, Bool, Option, none, some, List, ◌&&◌, not, find, str_eq, if◌then◌else◌,
}
use hostingservices.Database.{
  rolling_back, failed, is_ready, Deployment, Table, list_deployments, update_deployment, find_id,
}
use hostingservices.Rollback.{
  EngineRequest, Answer, answered, broken, Handled, Guarded, refuse, pass, no_runtime, runtime_of,
  engine_request, queue_rollback, run_guarded,
}

-- The test of the search for the row to return to.
unfoldable pub is_previous : Deployment → Deployment → Bool
is_previous current d =
    str_eq d.project_id current.project_id
    && is_ready d.status
    && not (str_eq d.id current.id)
    && not (str_eq d.image current.image)

abbrev pub guard_previous : Option Deployment → List Deployment → Guarded
guard_previous none deployments = refuse 404 "Deployment not found"
guard_previous (some current) deployments =
    if not (is_ready current.status)
    then refuse 409 "Only a healthy running deployment can be rolled back"
    else elim (find (is_previous current) deployments) [
      | none ↦ refuse 409 "No previous healthy deployment is available for rollback"
      | some d ↦ pass current d
    ]

unfoldable pub guard_rollback : Bool → String → Table → Guarded
guard_rollback is_user id table =
    let deployments = list_deployments table in
    if not is_user
    then refuse 401 "Authentication required"
    else guard_previous (find_id id deployments) deployments

unfoldable pub queue_back :
    (EngineRequest → Answer) → String → Table → Deployment → Deployment → Handled
queue_back engine id table current previous =
    let runtime = runtime_of current in
    queue_rollback engine (engine_request ("rollback:" +++ id) id previous.image runtime) id
      previous runtime
      (record runtime { rollback_from = some previous.id; previous_image = some previous.image })
      table

-- `POST /api/v1/deployments/:id/rollback`.
unfoldable pub rollback : (EngineRequest → Answer) → Bool → String → Table → Handled
rollback engine is_user id table =
    run_guarded (guard_rollback is_user id table) table (queue_back engine id table)

-- `rollbackDeployment`: what it returns or throws, with the table and the call.
pub record Rolled : Type 0 where
  pub table : Table
  pub sent : EngineRequest
  pub answer : Answer

unfoldable pub rollback_deployment : (EngineRequest → Answer) → EngineRequest → Table → Rolled
rollback_deployment engine args table =
    let request = record args { idempotency_key = "rollback:" +++ args.deployment_id } in
    let updated = update_deployment args.deployment_id rolling_back none table in
    elim (engine request) [
      | answered job ↦ record { table = updated; sent = request; answer = answered job }
      | broken error ↦ record {
        table =
            update_deployment args.deployment_id failed
              (some (record no_runtime { rollback_error = some error })) updated;
        sent = request;
        answer = broken error;
      }
    ]
