-- ===== src/Rollback.antt =====
-- Rolling a deployment back to a version that the request names: the handler `rollback-to` of
-- apps/api/src/deployment-history.ts. What the engine answers to a request is an argument, and the
-- table of deployments is the state. The session of the caller is a Boolean, for `userFromToken`.
pub mod Requests
pub mod Asked
pub mod Acceptance
pub mod Retry
pub mod Earlier
pub mod Listing
pub mod Versions
pub mod Previous
pub mod Sample
mod Tests
use Prim.Native.String.{◌++◌ as ◌+++◌, slice}
use hostingservices.Common.{
  ℕ, String, Bool, true, false, Option, none, some, List, [], ◌∷◌, ◌&&◌, ◌||◌, not, find, keep, map,
  str_eq, get_or, if◌then◌else◌,
}
use hostingservices.Database.{
  Status, ready, rolling_back, failed, is_ready, Runtime, Deployment, Table, list_deployments,
  update_deployment, find_id,
}

-- The call of the engine: the header `Idempotency-Key` and the body.
pub record EngineRequest : Type 0 where
  pub idempotency_key : String
  pub deployment_id : String
  pub name : String
  pub previous_image : String
  pub container_port : Option ℕ
  pub host_port : Option ℕ
  pub health_mode : Option String
  pub is_public : Option Bool
  pub health_path : Option String
  pub domain : Option String
  pub env : Option (List (String × String))

-- What becomes of the call: a response that is ok, with its body, or an error, as a text: a
-- response that is not ok, one that is no JSON, or a call that fails.
pub data Answer : Type 0 where
  answered : String → Answer
  broken : String → Answer

-- The response to the caller: the status code and what its body tells.
pub data Response : Type 0 where
  accepted : String → String → String → String → Response
  refused : ℕ → String → Response
  not_queued : String → Response

-- The table after the handler, the calls of the engine it made, and its response.
pub record Handled : Type 0 where
  pub table : Table
  pub sent : List EngineRequest
  pub response : Response

pub data Guarded : Type 0 where
  refuse : ℕ → String → Guarded
  pass : Deployment → Deployment → Guarded

abbrev pub no_runtime : Runtime
no_runtime = record {
  name = none;
  service = none;
  service_name = none;
  container_port = none;
  host_port = none;
  health_mode = none;
  is_public = none;
  health_path = none;
  domain = none;
  env = none;
  rollback_from = none;
  previous_image = none;
  rollback_target = none;
  rollback_error = none;
}

-- `current.runtime ?? {}`.
abbrev pub runtime_of : Deployment → Runtime
runtime_of d = get_or d.runtime no_runtime

-- `runtime.name ?? nexus-${id.slice(0, 8)}`. The ids are ASCII, so that a character is a byte.
unfoldable pub runtime_name : String → Runtime → String
runtime_name id r = get_or r.name ("nexus-" +++ slice id 0 8)

unfoldable pub engine_request : String → String → String → Runtime → EngineRequest
unfolding runtime_name
engine_request key id image r = record {
  idempotency_key = key;
  deployment_id = id;
  name = runtime_name id r;
  previous_image = image;
  container_port = r.container_port;
  host_port = r.host_port;
  health_mode = r.health_mode;
  is_public = r.is_public;
  health_path = r.health_path;
  domain = r.domain;
  env = r.env;
}

-- Both texts are given, not empty, and differ: `a && b && a !== b`.
abbrev pub clashes : Option String → Option String → Bool
clashes (some a) (some b) = not (str_eq a "") && not (str_eq b "") && not (str_eq a b)
clashes _ _ = false

-- The checks on the two rows, in their order.
unfoldable pub guard_rows : Deployment → Deployment → Guarded
guard_rows current target =
    if not (is_ready current.status)
    then refuse 409 "Only a healthy running deployment can be rolled back"
    else if not (is_ready target.status)
    then refuse 409 "Target deployment is not healthy"
    else if not (str_eq target.project_id current.project_id)
    then refuse 409 "Target deployment belongs to another project"
    else if clashes current.repo target.repo
    then refuse 409 "Target deployment belongs to another repository"
    else if str_eq target.image ""
    then refuse 409 "Target deployment has no deployable image"
    else pass current target

abbrev pub guard_found : Option Deployment → Option Deployment → Guarded
guard_found none target = refuse 404 "Deployment not found"
guard_found (some current) none = refuse 404 "Target deployment not found"
guard_found (some current) (some target) = guard_rows current target

-- The checks of `rollback-to`.
unfoldable pub guard_rollback_to : Bool → String → Option String → Table → Guarded
guard_rollback_to is_user id body table =
    let target_id = get_or body "" in
    let deployments = list_deployments table in
    if not is_user
    then refuse 401 "Authentication required"
    else if str_eq target_id ""
    then refuse 400 "targetDeploymentId is required"
    else if str_eq target_id id
    then refuse 400 "Target deployment must be a different version"
    else guard_found (find_id id deployments) (find_id target_id deployments)

-- From the update to `rolling_back` on: the call, and the update if it fails.
unfoldable pub queue_rollback :
    (EngineRequest → Answer)
    → EngineRequest
    → String
    → Deployment
    → Runtime
    → Runtime
    → Table
    → Handled
queue_rollback engine request id target runtime rolling table =
    let updated = update_deployment id rolling_back (some rolling) table in
    elim (engine request) [
      | answered job ↦ record {
        table = updated;
        sent = request ∷ [];
        response = accepted id target.id target.image job;
      }
      | broken error ↦ record {
        table =
            update_deployment id failed (some (record runtime { rollback_error = some error }))
              updated;
        sent = request ∷ [];
        response = not_queued error;
      }
    ]

abbrev pub run_guarded : Guarded → Table → (Deployment → Deployment → Handled) → Handled
run_guarded (refuse code e) table k = record { table = table; sent = []; response = refused code e }
run_guarded (pass current target) table k = k current target

-- The call and the runtime of `rollback-to`.
unfoldable pub request_of : String → Deployment → Deployment → EngineRequest
unfolding engine_request
request_of id current target =
    engine_request ("rollback:" +++ (id +++ (":" +++ target.id))) id target.image
      (runtime_of current)

unfoldable pub rolling_of : Deployment → Deployment → Runtime
rolling_of current target = record (runtime_of current) {
  rollback_from = some target.id;
  previous_image = some target.image;
  rollback_target = some target.id;
}

unfoldable pub queue_to :
    (EngineRequest → Answer) → String → Table → Deployment → Deployment → Handled
queue_to engine id table current target =
    queue_rollback engine (request_of id current target) id target (runtime_of current)
      (rolling_of current target) table

-- `POST /api/v1/deployments/:id/rollback-to`.
unfoldable pub rollback_to :
    (EngineRequest → Answer) → Bool → String → Option String → Table → Handled
rollback_to engine is_user id body table =
    run_guarded (guard_rollback_to is_user id body table) table (queue_to engine id table)
