-- ===== src/Scheduler/Tests.antt =====
-- A run of the scheduler of apps/engine/src/scheduler.ts, and its theorems at concrete inputs.
use hostingservices.Common.{
  ℕ, ◌+◌, ◌≤◌, String, true, false, none, some, List, [], ◌∷◌, ◌≡◌, ◌↔◌, refl, arith, In, All,
  sort_by,
}
use hostingservices.Scheduler.{
  RuntimeNode, NodeStatus, online, draining, is_candidate, select_runtime_node,
}
use hostingservices.Scheduler.Choice.{IsNoWorse, select_runtime_node-best, select_runtime_node-none}

abbrev node : String → String → NodeStatus → ℕ → RuntimeNode
node name region status used = record {
  name = name;
  region = region;
  status = status;
  capacity_cpu_millis = 4000;
  used_cpu_millis = used;
  capacity_memory_bytes = 1000;
  used_memory_bytes = 0;
}

abbrev nodes : List RuntimeNode
nodes =
    node "a" "us" online 100
    ∷ node "b" "eu" online 900
    ∷ node "c" "eu" draining 0
    ∷ node "d" "eu" online 300
    ∷ []

prefers_region : select_runtime_node nodes 100 128 (some "eu") ≡ some (node "d" "eu" online 300)
unfolding select_runtime_node sort_by
prefers_region = refl

select_runtime_node-best_example :
    let n = node "d" "eu" online 300 in
    In n nodes
    × (n.status ≡ online)
    × (n.used_cpu_millis + 100 ≤ n.capacity_cpu_millis)
    × (n.used_memory_bytes + 128 ≤ n.capacity_memory_bytes)
    × ((m : RuntimeNode) → In m nodes → is_candidate 100 128 m ≡ true → IsNoWorse (some "eu") n m)
select_runtime_node-best_example =
    select_runtime_node-best nodes 100 128 (some "eu") (node "d" "eu" online 300) (omega arith)
      (omega arith) prefers_region

select_runtime_node-none_case :
    (select_runtime_node nodes 5000 128 none ≡ none)
    ↔ All (λ n. is_candidate 5000 128 n ≡ false) nodes
select_runtime_node-none_case = select_runtime_node-none nodes 5000 128 none
