-- ===== src/Sandbox/Tests.antt =====
-- Runs of apps/engine/src/sandbox.ts, and its theorem at a concrete input.
use hostingservices.Common.{◌≡◌, true, none, some, refl}
use hostingservices.Sandbox.{Environment, thousandths, nan, build_sandbox_policy, positive_number}

abbrev hostile : Environment
hostile = record {
  production = true;
  build_network = some "host";
  build_memory = none;
  build_cpus = some (thousandths 99_000);
  build_pids = some nan;
  build_timeout_ms = none;
}

falls_back :
    ((build_sandbox_policy hostile).network ≡ "bridge")
    × ((build_sandbox_policy hostile).cpus ≡ 2_000)
    × ((build_sandbox_policy hostile).pids ≡ 512_000)
unfolding build_sandbox_policy positive_number
falls_back = (refl, refl, refl)
