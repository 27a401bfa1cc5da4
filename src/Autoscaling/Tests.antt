-- ===== src/Autoscaling/Tests.antt =====
-- Runs of packages/platform-contracts/src/autoscaling.ts, and its theorems at concrete inputs.
use hostingservices.Common.{ℕ, ◌+◌, ◌≤◌, ◌<◌, none, some, ◌≡◌, ◌↔◌, refl, arith}
use hostingservices.Autoscaling.{
  AutoscalingMetrics, Policy, scale_out, scale_in, decide_autoscaling, reasons_of, below_all,
}
use hostingservices.Autoscaling.Decisions.{
  SomeMeets, AllIdle, decide_autoscaling_bounds, decide_autoscaling_when,
}

abbrev policy : Policy
policy = record {
  min = 1;
  max = 5;
  cpu_percent = some 80;
  memory_percent = none;
  requests_per_second = none;
  queue_depth = some 10;
}

abbrev load : ℕ → ℕ → AutoscalingMetrics
load cpu depth = record {
  cpu_percent = some cpu;
  memory_percent = none;
  requests_per_second = none;
  queue_depth = some depth;
}

adds_one : (decide_autoscaling 3 policy (load 90 0)).target_replicas ≡ 4
unfolding decide_autoscaling reasons_of below_all
adds_one = refl

decide_autoscaling_bounds_case :
    let target = (decide_autoscaling 3 policy (load 90 0)).target_replicas in
    (1 ≤ target) × (target ≤ 5) × (target ≤ 3 + 1) × (3 ≤ target + 1)
decide_autoscaling_bounds_case =
    decide_autoscaling_bounds 3 policy (load 90 0) (omega arith) (omega arith)

decide_autoscaling_when_case :
    (((decide_autoscaling 3 policy (load 20 2)).action ≡ scale_out)
      ↔ (SomeMeets policy (load 20 2) × (3 < 5)))
    × (((decide_autoscaling 3 policy (load 20 2)).action ≡ scale_in)
        ↔ (AllIdle policy (load 20 2) × (1 < 3)))
decide_autoscaling_when_case = decide_autoscaling_when 3 policy (load 20 2)
