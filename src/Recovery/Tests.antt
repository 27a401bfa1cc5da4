-- ===== src/Recovery/Tests.antt =====
-- A deployment whose node is gone is claimed for another node, and stays there.
use mathlib.Core.Option
use hostingservices.Common.{
  ℕ, ◌≡◌, inl, inr, refl, String, false, none, some, List, [], ◌∷◌, map, keep, sort_by,
}
use hostingservices.Database
use hostingservices.Lifecycle.{deploying}
use hostingservices.Scheduler.{RuntimeNode, online, select_runtime_node}
use hostingservices.Recovery.{
  NodeRow, Metadata, DeploymentSpec, Recoverable, Claimed, claim_metadata, select_deployment_node,
}
use hostingservices.Recovery.Placement.{
  node_of, is_reachable, select_deployment_node-select_runtime_node,
}
use hostingservices.Recovery.Targets.{claim_metadata-again}

abbrev node : String → ℕ → RuntimeNode
node name used = record {
  name = name;
  region = "eu";
  status = online;
  capacity_cpu_millis = 1_000;
  used_cpu_millis = used;
  capacity_memory_bytes = 1_000_000_000;
  used_memory_bytes = 0;
}

abbrev row : String → ℕ → ℕ → NodeRow
row name used heartbeat = record {
  id = name;
  endpoint = "http://n";
  node = node name used;
  last_heartbeat = some heartbeat;
}

-- The first has not been heard of for a minute.
abbrev rows : List NodeRow
rows = row "a" 0 40_000 ∷ row "b" 800 90_000 ∷ row "c" 100 90_000 ∷ []

abbrev spec : DeploymentSpec
spec = record {
  node_name = some "a";
  original_node_name = none;
  cpu_nano_cpus = none;
  memory_bytes = none;
}

abbrev metadata : Metadata
metadata = record {
  deployment_spec = some spec;
  recovery_node_name = none;
  recovery_original_node_name = none;
  recovery_lease_until = none;
  recovery_claimed_at = none;
}

abbrev lost : Recoverable
lost = record {
  id = "d1";
  status = Database.starting;
  phase = deploying;
  is_locked = false;
  metadata = metadata;
}

abbrev moved : Metadata
moved = record {
  deployment_spec = some (record spec { node_name = some "c"; original_node_name = some "a" });
  recovery_node_name = some "c";
  recovery_original_node_name = some "a";
  recovery_lease_until = some 160_000;
  recovery_claimed_at = some 100_000;
}

abbrev claimed : Claimed
claimed = record { id = "d1"; metadata = moved; recovery_node_name = "c" }

select_deployment_node-select_runtime_node_example :
    Option.map node_of (select_deployment_node 100_000 rows 100 1_000 none)
    ≡ select_runtime_node (map node_of (keep (is_reachable 100_000) rows)) 100 1_000 none
select_deployment_node-select_runtime_node_example =
    select_deployment_node-select_runtime_node 100_000 rows 100 1_000 none

claims_once :
    claim_metadata 100_000 (row "b" 800 90_000 ∷ row "c" 100 90_000 ∷ []) none metadata
    ≡ some (moved, "c")
unfolding claim_metadata sort_by
claims_once = refl

-- Long after the lease, and when another node has less load.
claim_metadata-again_example :
    claim_metadata 900_000 (row "b" 0 890_000 ∷ row "c" 900 890_000 ∷ []) none moved
    ≡ some (moved, "c")
claim_metadata-again_example =
    claim_metadata-again 100_000 900_000 (row "b" 800 90_000 ∷ row "c" 100 90_000 ∷ [])
      (row "b" 0 890_000 ∷ row "c" 900 890_000 ∷ []) none none metadata moved "c"
      (row "c" 900 890_000) refl claims_once (inr (inl refl)) refl refl
