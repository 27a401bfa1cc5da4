-- ===== src/Replicas.antt =====
-- The deployment of several replicas and the autoscaler's loop (apps/engine/src/replicas.ts, with
-- the switches of apps/engine/src/router.ts). The containers that Docker lists for replicas and
-- the router's files are the state; which calls fail is given by a record. A run keeps what
-- `deployReplicas` has started and whether it has moved the traffic.
pub mod Calls
pub mod Rollout
pub mod Ends
pub mod Weights
pub mod Cleanup
pub mod Starting
pub mod Success
pub mod Scaling
mod Tests
use Prim.Native.String.{String}
use hostingservices.Common.{
  ℕ, zero, suc, ◌+◌, ◌-◌, ◌%◌, ◌/◌, Bool, true, false, Option, none, some, List, [], ◌∷◌, ◌++◌, not,
  ◌&&◌, ◌||◌, ltb, leb, ◌==◌, get_or, find, keep, map, any, is_some, if◌then◌else◌, min, max,
  sort_by, first,
}
use hostingservices.Common.Texts.{Text, text, text_eq, is_blank, or_else}
use hostingservices.Health.{
  HealthMode, http, process, Attempt, Check, Result, is_healthy, with_defaults,
  wait_for_healthy_container,
}
use hostingservices.Deploy.Daemon.{Removal, gone, only_stopped, untouched}

pub record AutoscaleSpec : Type 0 where
  pub min : ℕ
  pub max : ℕ
  pub cpu_percent : ℕ
  pub interval_seconds : Option ℕ

pub data Strategy : Type 0 where
  rolling blue_green canary : Strategy

pub record ReplicaSpec : Type 0 where
  pub name : Text
  pub image : Text
  pub replicas : ℕ
  pub health_path : Option Text
  pub health_mode : Option HealthMode
  pub is_public : Option Bool
  pub strategy : Option Strategy
  pub deployment_id : Option Text
  pub generation_id : Option Text
  pub canary_steps : Option (List ℕ)

-- A container with its labels.
pub record Replica : Type 0 where
  pub name : Text
  pub runtime : Text
  pub image : Text
  pub running : Bool
  pub index : ℕ
  pub generation : Text

-- A file of the router: the servers, or two groups and the weight of the second.
pub data Route : Type 0 where
  servers : List Text → Route
  weighted : (stable candidate : List Text) (weight : ℕ) → Route

-- The containers, and the router's files by their names.
pub record Cluster : Type 0 where
  pub replicas : List Replica
  pub routes : Text → Option Route

-- TRAEFIK_ENABLED other than 'false', and REQUIRE_HEALTHCHECK other than 'false'.
pub record Settings : Type 0 where
  pub traefik_enabled : Bool
  pub healthcheck_required : Bool

-- Which calls succeed: those for the candidate with an index, and those of a round of the canary;
-- and what the health checks of a round see of the candidate with an index.
pub record Faults : Type 0 where
  pub networks : Bool
  pub lists : Bool
  pub creates : ℕ → Bool
  pub starts : ℕ → Bool
  pub inspects : ℕ → Bool
  pub ports : ℕ → ℕ
  pub switches : ℕ → Bool
  pub restores : Bool
  pub removal : Text → Removal
  pub attempts : (round index : ℕ) → ℕ → Attempt

pub data Error : Type 0 where
  network_calls list_calls create_calls start_calls inspect_calls switch_calls not_healthy : Error

pub record Run : Type 0 where
  pub cluster : Cluster
  pub started : List Text
  pub switched : Bool

pub data Outcome : Type 0 where
  ok : Run → Outcome
  throw : Error → Run → Outcome

abbrev pub fresh_run : Cluster → Run
fresh_run w = record { cluster = w; started = []; switched = false }

abbrev pub then_run : Outcome → (Run → Outcome) → Outcome
then_run (ok r) k = k r
then_run (throw e r) k = throw e r
