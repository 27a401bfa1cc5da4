-- ===== src/Recovery.antt =====
-- The placement of deployments on the nodes of the table `runtime_nodes` by the API
-- (`selectDeploymentNode` of apps/api/src/runtime-platform-routes.ts) and the recovery of
-- deployments that were lost (`claimRecoverableDeployments` of
-- apps/api/src/production-platform-routes.ts), one transaction as a function from the rows.
-- Times are milliseconds; the rows come in the order of the query.
pub mod Placement
pub mod Targets
pub mod Claims
mod Tests
use hostingservices.Common.{
  ℕ, zero, suc, ◌+◌, ◌-◌, ◌*◌, String, Bool, true, false, Option, none, some, List, [], ◌∷◌, ◌&&◌,
  ◌||◌, not, leb, ltb, get_or, find, keep, first, sort_by, str_eq, max, is_some, if◌then◌else◌,
}
use hostingservices.Database
use hostingservices.Lifecycle.{DeploymentState, live, failed, stopped}
use hostingservices.Scheduler.{
  RuntimeNode, NodeStatus, offline, is_online, is_candidate, goes_before,
}

-- A row of `runtime_nodes`.
pub record NodeRow : Type 0 where
  pub id : String
  pub endpoint : String
  pub node : RuntimeNode
  pub last_heartbeat : Option ℕ

-- `last_heartbeat_at IS NULL OR last_heartbeat_at > NOW() - INTERVAL '45 seconds'`.
unfoldable pub is_fresh : (now : ℕ) → NodeRow → Bool
is_fresh now r = elim r.last_heartbeat [ none ↦ true | some t ↦ ltb now (t + 45_000) ]

abbrev pub is_offline : NodeStatus → Bool
is_offline offline = true
is_offline _ = false

-- `selectDeploymentNode`: the query, the filter, and the least of the sorted rows.
abbrev pub fits : (cpu memory : ℕ) → NodeRow → Bool
fits cpu memory r =
    is_online r.node.status && not (str_eq r.endpoint "") && is_candidate cpu memory r.node

unfoldable pub select_deployment_node :
    (now : ℕ) → List NodeRow → (cpu memory : ℕ) → (preferred : Option String) → Option NodeRow
unfolding is_fresh goes_before is_candidate
select_deployment_node now rows cpu memory preferred =
    let listed = keep (λ (r : NodeRow). not (is_offline r.node.status) && is_fresh now r) rows in
    first (
      sort_by (λ (a b : NodeRow). goes_before preferred a.node b.node)
        (keep (fits cpu memory) listed))

-- What a deployment's metadata keeps for its recovery.
pub record DeploymentSpec : Type 0 where
  pub node_name : Option String
  pub original_node_name : Option String
  pub cpu_nano_cpus : Option ℕ
  pub memory_bytes : Option ℕ

pub record Metadata : Type 0 where
  pub deployment_spec : Option DeploymentSpec
  pub recovery_node_name : Option String
  pub recovery_original_node_name : Option String
  pub recovery_lease_until : Option ℕ
  pub recovery_claimed_at : Option ℕ

-- A row of `deployments JOIN deployment_state`; `is_locked` tells whether another transaction
-- holds it.
pub record Recoverable : Type 0 where
  pub id : String
  pub status : Database.Status
  pub phase : DeploymentState
  pub is_locked : Bool
  pub metadata : Metadata

pub record Claimed : Type 0 where
  pub id : String
  pub metadata : Metadata
  pub recovery_node_name : String

abbrev pub name_of : NodeRow → String
name_of r = r.node.name

-- `healthyNodes`.
unfoldable pub healthy_nodes : (now : ℕ) → List NodeRow → List NodeRow
unfolding is_fresh
healthy_nodes now rows =
    keep
      (λ (r : NodeRow).
        is_online r.node.status
        && is_fresh now r
        && ltb r.node.used_cpu_millis r.node.capacity_cpu_millis
        && ltb r.node.used_memory_bytes r.node.capacity_memory_bytes)
      rows

abbrev pub by_name : String → List NodeRow → Option NodeRow
by_name name = find (λ (r : NodeRow). str_eq (name_of r) name)

-- The filter of the nodes with room: `cpuNanoCpus` is counted in billionths of a processor.
unfoldable pub has_room : DeploymentSpec → NodeRow → Bool
has_room spec r =
    let n = r.node in
    leb (max 1_000_000 (get_or spec.cpu_nano_cpus 100_000_000))
      ((n.capacity_cpu_millis - n.used_cpu_millis) * 1_000_000)
    && leb (max 1 (get_or spec.memory_bytes 134_217_728))
        (n.capacity_memory_bytes - n.used_memory_bytes)

-- The comparison of the loads, as fractions.
abbrev over : RuntimeNode → ℕ
over n =
    n.used_cpu_millis * max 1 n.capacity_memory_bytes
    + n.used_memory_bytes * max 1 n.capacity_cpu_millis

abbrev under : RuntimeNode → ℕ
under n = max 1 n.capacity_cpu_millis * max 1 n.capacity_memory_bytes

unfoldable pub is_less_loaded : NodeRow → NodeRow → Bool
is_less_loaded a b = leb (over a.node * under b.node) (over b.node * under a.node)

unfoldable pub original_node : Metadata → DeploymentSpec → String
original_node m spec =
    get_or m.recovery_original_node_name
      (get_or spec.original_node_name (get_or spec.node_name "local"))

-- The node of an earlier recovery, if it is healthy.
unfoldable pub existing_healthy : List NodeRow → Metadata → Option NodeRow
existing_healthy nodes m =
    let existing = get_or m.recovery_node_name "" in
    if str_eq existing "" then none else by_name existing nodes

abbrev pub or_node : Option NodeRow → Option NodeRow → Option NodeRow
or_node (some r) other = some r
or_node none other = other

unfoldable pub target_node : List NodeRow → Metadata → DeploymentSpec → Option NodeRow
unfolding existing_healthy original_node has_room is_less_loaded
target_node nodes m spec = or_node (existing_healthy nodes m) (
    or_node (by_name (original_node m spec) nodes)
      (first (sort_by is_less_loaded (keep (has_room spec) nodes))))

abbrev claimed_metadata : (now : ℕ) → Metadata → DeploymentSpec → String → Metadata
claimed_metadata now m spec target = record {
  deployment_spec =
      some
        (record spec { node_name = some target; original_node_name = some (original_node m spec) });
  recovery_node_name = some target;
  recovery_original_node_name = some (original_node m spec);
  recovery_lease_until = some (now + 60_000);
  recovery_claimed_at = some now;
}

abbrev already_claimed : List NodeRow → Metadata → String → Bool
already_claimed nodes m target =
    str_eq (get_or m.recovery_node_name "") target && is_some (existing_healthy nodes m)

abbrev pub accepts : Option String → String → Bool
accepts none target = true
accepts (some requested) target = str_eq target requested

-- The metadata and the node that a deployment is claimed with, if it is.
unfoldable pub claim_metadata :
    (now : ℕ) → List NodeRow → (requested : Option String) → Metadata → Option (Metadata × String)
unfolding target_node original_node existing_healthy
claim_metadata now nodes requested m = elim m.deployment_spec [
  | none ↦ none
  | some spec ↦ elim (target_node nodes m spec) [
    | none ↦ none
    | some target ↦
        if not (accepts requested (name_of target))
        then none
        else if already_claimed nodes m (name_of target)
        then some (m, name_of target)
        else some (claimed_metadata now m spec (name_of target), name_of target)
  ]
]

-- The statuses and the phases of the query: all but those at an end.
unfoldable pub is_active_status : Database.Status → Bool
is_active_status Database.ready = false
is_active_status Database.failed = false
is_active_status _ = true

unfoldable pub is_active_phase : DeploymentState → Bool
is_active_phase live = false
is_active_phase failed = false
is_active_phase stopped = false
is_active_phase _ = true

-- The rows of the query: at most `limit` that are active and not locked.
unfoldable pub is_listed : Recoverable → Bool
unfolding is_active_status is_active_phase
is_listed d = (is_active_status d.status || is_active_phase d.phase) && not d.is_locked

-- The loop: the rows after the updates, and what is claimed.
unfoldable pub claim_rows :
    (now limit : ℕ)
    → List NodeRow
    → (requested : Option String) → List Recoverable
    → List Recoverable × List Claimed
unfolding claim_metadata is_listed
claim_rows now limit nodes requested [] = ([], [])
claim_rows now zero nodes requested rows = (rows, [])
claim_rows now (suc limit) nodes requested (d ∷ ds) =
    let skipped = claim_rows now (suc limit) nodes requested ds in
    let (rest, claimed) = claim_rows now limit nodes requested ds in
    if not (is_listed d)
    then (d ∷ skipped.0, skipped.1)
    else elim (claim_metadata now nodes requested d.metadata) [
      | none ↦ (d ∷ rest, claimed)
      | some (m, target) ↦ (
        record d { metadata = m } ∷ rest,
        record { id = d.id; metadata = m; recovery_node_name = target } ∷ claimed,
      )
    ]

-- `requestedNodeName`: an empty one counts as none, and one that is not healthy claims nothing.
unfoldable pub claim_recoverable_deployments :
    (now : ℕ)
    → List NodeRow
    → (requested : Option String) → List Recoverable
    → List Recoverable × List Claimed
unfolding healthy_nodes claim_rows
claim_recoverable_deployments now rows requested deployments =
    let nodes = healthy_nodes now rows in
    let name = get_or requested "" in
    if str_eq name ""
    then claim_rows now 50 nodes none deployments
    else if is_some (by_name name nodes)
    then claim_rows now 50 nodes (some name) deployments
    else (deployments, [])
