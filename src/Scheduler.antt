-- ===== src/Scheduler.antt =====
-- The placement of workloads on runtime nodes: `selectRuntimeNode` of
-- apps/engine/src/scheduler.ts. Capacities and uses are whole numbers, `capacity - used >= asked`
-- is written as a sum, since the difference may be negative, and the two quotients that make the
-- load of a node are compared exactly, as fractions, where the code adds floating-point numbers.
pub mod Choice
mod Tests
use hostingservices.Common.{
  ℕ, ◌+◌, ◌*◌, String, Bool, true, false, Option, none, some, List, [], ◌∷◌, ◌&&◌, not, leb, ltb,
  ◌==◌, if◌then◌else◌, keep, first, sort_by, str_eq,
}

pub data NodeStatus : Type 0 where
  online draining offline : NodeStatus

pub record RuntimeNode : Type 0 where
  pub name : String
  pub region : String
  pub status : NodeStatus
  pub capacity_cpu_millis : ℕ
  pub used_cpu_millis : ℕ
  pub capacity_memory_bytes : ℕ
  pub used_memory_bytes : ℕ

abbrev pub is_online : NodeStatus → Bool
is_online online = true
is_online _ = false

-- `capacity - used >= asked`.
abbrev pub has_free : ℕ → ℕ → ℕ → Bool
has_free capacity used asked = leb (used + asked) capacity

-- The test of the filter.
unfoldable pub is_candidate : ℕ → ℕ → RuntimeNode → Bool
is_candidate cpu memory n =
    is_online n.status
    && has_free n.capacity_cpu_millis n.used_cpu_millis cpu
    && has_free n.capacity_memory_bytes n.used_memory_bytes memory

-- `preferredRegion && n.region === preferredRegion ? 0 : 1`.
unfoldable pub region_rank : Option String → RuntimeNode → ℕ
region_rank none n = 1
region_rank (some r) n = if not (str_eq r "") && str_eq n.region r then 0 else 1

-- The load, used/capacity of the processor plus used/capacity of the memory, as a fraction.
unfoldable pub load_over : RuntimeNode → ℕ
load_over n =
    n.used_cpu_millis * n.capacity_memory_bytes + n.used_memory_bytes * n.capacity_cpu_millis

unfoldable pub load_under : RuntimeNode → ℕ
load_under n = n.capacity_cpu_millis * n.capacity_memory_bytes

unfoldable pub load_le : RuntimeNode → RuntimeNode → Bool
unfolding load_over load_under
load_le a b = leb (load_over a * load_under b) (load_over b * load_under a)

-- The comparison of the sort is at most 0.
unfoldable pub goes_before : Option String → RuntimeNode → RuntimeNode → Bool
unfolding region_rank load_le
goes_before preferred a b =
    if region_rank preferred a == region_rank preferred b
    then load_le a b
    else ltb (region_rank preferred a) (region_rank preferred b)

unfoldable pub select_runtime_node : List RuntimeNode → ℕ → ℕ → Option String → Option RuntimeNode
unfolding is_candidate goes_before
select_runtime_node nodes cpu memory preferred =
    first (sort_by (goes_before preferred) (keep (is_candidate cpu memory) nodes))
