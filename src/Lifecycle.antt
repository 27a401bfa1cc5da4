-- ===== src/Lifecycle.antt =====
-- The deployment records of the engine and their state machine
-- (apps/engine/src/deployment-state.ts). Times are milliseconds, so that the order of ISO strings
-- is the order of numbers. A patch holds the fields that the caller gives; a field given as
-- `undefined` is not told apart from one left out.
pub mod Diagram
pub mod Records
pub mod History
mod Tests
use hostingservices.Common.{
  ℕ, String, Bool, true, false, Option, none, some, List, [], ◌∷◌, ◌||◌, not, ◌&&◌, leb, any,
  get_or, if◌then◌else◌, lookup, insert, values, sort_by,
}

pub data DeploymentState : Type 0 where
  queued cloning detecting building testing security_scan : DeploymentState
  provisioning deploying health_check traffic_shift live : DeploymentState
  diagnosing auto_recovery rolling_back failed stopped : DeploymentState

unfoldable pub DeploymentState-discrete : Discrete DeploymentState
DeploymentState-discrete = hlevel

-- `===` on states.
unfoldable pub same : DeploymentState → DeploymentState → Bool
unfolding DeploymentState-discrete
same a b = elim (DeploymentState-discrete a b) [ yes _ ↦ true | no _ ↦ false ]

abbrev pub terminal_deployment_states : List DeploymentState
terminal_deployment_states = live ∷ failed ∷ stopped ∷ []

unfoldable pub allowed_transitions : DeploymentState → List DeploymentState
allowed_transitions queued = cloning ∷ failed ∷ stopped ∷ []
allowed_transitions cloning = detecting ∷ failed ∷ stopped ∷ []
allowed_transitions detecting = building ∷ failed ∷ stopped ∷ []
allowed_transitions building = testing ∷ failed ∷ stopped ∷ []
allowed_transitions testing = security_scan ∷ provisioning ∷ failed ∷ stopped ∷ []
allowed_transitions security_scan = provisioning ∷ failed ∷ stopped ∷ []
allowed_transitions provisioning = deploying ∷ failed ∷ stopped ∷ []
allowed_transitions deploying = health_check ∷ failed ∷ stopped ∷ []
allowed_transitions health_check = traffic_shift ∷ live ∷ diagnosing ∷ failed ∷ stopped ∷ []
allowed_transitions traffic_shift = live ∷ rolling_back ∷ diagnosing ∷ failed ∷ []
allowed_transitions live = diagnosing ∷ rolling_back ∷ stopped ∷ []
allowed_transitions diagnosing = auto_recovery ∷ rolling_back ∷ failed ∷ []
allowed_transitions auto_recovery = health_check ∷ live ∷ rolling_back ∷ failed ∷ []
allowed_transitions rolling_back = health_check ∷ live ∷ failed ∷ []
allowed_transitions failed = auto_recovery ∷ rolling_back ∷ stopped ∷ []
allowed_transitions stopped = []

unfoldable pub can_transition : DeploymentState → DeploymentState → Bool
unfolding same allowed_transitions
can_transition from to = same from to || any (same to) (allowed_transitions from)

pub record DeploymentRecord : Type 0 where
  pub id : String
  pub service_id : String
  pub status : DeploymentState
  pub image : Option String
  pub container_id : Option String
  pub url : Option String
  pub error : Option String
  pub created_at : ℕ
  pub updated_at : ℕ
  pub version : Option String
  pub recovery_point_id : Option String

-- `Partial<Omit<DeploymentRecord, 'id' | 'createdAt'>>`.
pub record Patch : Type 0 where
  pub service_id : Option String
  pub status : Option DeploymentState
  pub image : Option String
  pub container_id : Option String
  pub url : Option String
  pub error : Option String
  pub updated_at : Option ℕ
  pub version : Option String
  pub recovery_point_id : Option String

abbrev pub Store : Type 0
Store = List (String × DeploymentRecord)

pub record DeploymentInput : Type 0 where
  pub id : String
  pub service_id : String
  pub image : Option String
  pub version : Option String
  pub recovery_point_id : Option String

unfoldable pub create_deployment : ℕ → DeploymentInput → Store → DeploymentRecord × Store
create_deployment now i records =
    let r : DeploymentRecord = record {
      id = i.id;
      service_id = i.service_id;
      status = queued;
      image = i.image;
      container_id = none;
      url = none;
      error = none;
      created_at = now;
      updated_at = now;
      version = i.version;
      recovery_point_id = i.recovery_point_id;
    } in
    (r, insert r.id r records)

-- The field of the patch, or else the current one.
abbrev or_keep : Option String → Option String → Option String
or_keep none current = current
or_keep (some v) current = some v

unfoldable pub merge : ℕ → DeploymentRecord → Patch → DeploymentRecord
merge now current patch = record {
  id = current.id;
  service_id = get_or patch.service_id current.service_id;
  status = get_or patch.status current.status;
  image = or_keep patch.image current.image;
  container_id = or_keep patch.container_id current.container_id;
  url = or_keep patch.url current.url;
  error = or_keep patch.error current.error;
  created_at = current.created_at;
  updated_at = now;
  version = or_keep patch.version current.version;
  recovery_point_id = or_keep patch.recovery_point_id current.recovery_point_id;
}

-- `undefined`, the exception "Invalid deployment transition", or the new record.
pub data Updated : Type 0 where
  missing : Updated
  invalid_transition : DeploymentState → DeploymentState → Updated
  updated : DeploymentRecord → Updated

unfoldable pub update_current : ℕ → String → Patch → DeploymentRecord → Store → Updated × Store
unfolding merge
update_current now id patch current records = elim patch.status [
  | none ↦ (updated (merge now current patch), insert id (merge now current patch) records)
  | some s ↦
      if not (can_transition current.status s)
      then (invalid_transition current.status s, records)
      else (updated (merge now current patch), insert id (merge now current patch) records)
]

unfoldable pub update_deployment : ℕ → String → Patch → Store → Updated × Store
unfolding update_current
update_deployment now id patch records = elim (lookup id records) [
  | none ↦ (missing, records)
  | some current ↦ update_current now id patch current records
]

unfoldable pub get_deployment : String → Store → Option DeploymentRecord
get_deployment id records = lookup id records

-- `b.createdAt.localeCompare(a.createdAt) <= 0`.
unfoldable pub newer : DeploymentRecord → DeploymentRecord → Bool
newer a b = leb b.created_at a.created_at

unfoldable pub list_deployments : Store → List DeploymentRecord
unfolding newer
list_deployments records = sort_by newer (values records)
