-- ===== src/Health/Tests.antt =====
-- Runs of the wait of apps/engine/src/health.ts, and its theorems at concrete inputs.
use hostingservices.Common.{ℕ, zero, suc, true, none, some, ◌≡◌, refl, arith}
use hostingservices.Health.{
  HealthOptions, Attempt, auto, inspected, healthy, other, passed, Result, is_healthy, poll,
  wait_for_healthy_container,
}
use hostingservices.Health.Termination.{wait_total}
use hostingservices.Health.Evidence.{EndsAt, wait_evidence}

abbrev options : HealthOptions
options = record { timeout_ms = 20; interval_ms = 5; http_url = none; mode = auto }

-- The container is starting twice, and then healthy.
abbrev attempts : ℕ → Attempt
attempts zero = record {
  inspection = inspected true (some (other "starting"));
  status_code = none;
  took_ms = 1;
}
attempts (suc zero) = record {
  inspection = inspected true (some (other "starting"));
  status_code = none;
  took_ms = 1;
}
attempts _ = record { inspection = inspected true (some healthy); status_code = none; took_ms = 1 }

becomes_healthy : wait_for_healthy_container true options attempts ≡ some (is_healthy passed)
unfolding wait_for_healthy_container poll
becomes_healthy = refl

wait_total_example : (r : Result) × (wait_for_healthy_container true options attempts ≡ some r)
wait_total_example = wait_total true options attempts (omega arith)

wait_evidence_example : (n : ℕ) × EndsAt true options attempts (is_healthy passed) n
wait_evidence_example = wait_evidence true options attempts (is_healthy passed) becomes_healthy
