-- ===== src/Deploy/Tests.antt =====
-- Runs of apps/engine/src/deploy.ts, and its theorems at concrete inputs.
use hostingservices.Common.Texts.{text, text_eq}
use hostingservices.Router.{safe, write_file}
use hostingservices.Common.{
  ℕ, ◌≤◌, String, true, false, none, some, List, [], ◌∷◌, ◌++◌, ◌≡◌, ◌↔◌, refl, inl, arith, length,
  All,
}
use hostingservices.Health.{
  Attempt, process, inspected, by_process, poll, wait_for_healthy_container, with_defaults,
}
use hostingservices.Deploy.{
  RuntimeSpec, Settings, deploy_runtime, deploy_over, create_and_start, with_candidate, checked,
  check_health, hand_over, find_active_container, candidate_host_port, Deployed, health_url,
}
use hostingservices.Deploy.Daemon.{
  Container, World, Outcome, Faults, gone, ok, throw, switch_calls, start_calls, rename_calls,
  remove_container,
}
use hostingservices.Deploy.Binds.{Text, check_bind, safe_volume_binds, is_letter}
use hostingservices.Deploy.BindLaws.{
  NoColon, join_from, IsRelative, check_bind-none, drive_path-passes,
}
use hostingservices.Deploy.Failure.{IsKept, deploy_runtime-throw, start_failure-leaves}
use hostingservices.Deploy.HandOver.{Runs, Served}
use hostingservices.Deploy.Success.{FoundHealthy, deploy_runtime-ok}

abbrev spec : RuntimeSpec
spec = record {
  name = "web";
  image = "web:2";
  container_port = some 3000;
  host_port = none;
  health_path = none;
  health_mode = some process;
  is_public = none;
  volume_binds = [];
}

abbrev behind_proxy : Settings
behind_proxy = record {
  production = true;
  allow_host_binds = false;
  traefik_disabled = false;
  healthcheck_required = true;
}

abbrev without_proxy : Settings
without_proxy = record behind_proxy { traefik_disabled = true }

abbrev no_faults : Faults
no_faults = record {
  lists = true;
  networks = true;
  creates = true;
  starts = true;
  inspects = true;
  switches = true;
  renames = true;
  removal = λ _. gone;
  assigned_port = 32768;
}

abbrev old : Container
old = record { name = "web"; runtime = "web"; image = "web:1"; running = true; published = none }

abbrev before : World
before = record { containers = old ∷ []; routes = (text "web", "web" ∷ []) ∷ [] }

abbrev fine : ℕ → Attempt
fine _ = record { inspection = inspected true none; status_code = none; took_ms = 1 }

abbrev new : Container
new = record {
  name = "web-candidate-1";
  runtime = "web";
  image = "web:2";
  running = true;
  published = some 0;
}

abbrev after : World
after = record { containers = new ∷ []; routes = (text "web", "web-candidate-1" ∷ []) ∷ [] }

abbrev deployed : Deployed
deployed = record { name = "web-candidate-1"; health = by_process; replaced = some old }

-- `deployRuntime`, with all that it calls open.
run : Settings → Faults → (ℕ → Attempt) → RuntimeSpec → String → World → Outcome Deployed
unfolding deploy_runtime deploy_over create_and_start with_candidate checked check_health hand_over
    find_active_container candidate_host_port remove_container write_file safe text_eq
    wait_for_healthy_container poll with_defaults safe_volume_binds health_url
run s f attempts r candidate w = deploy_runtime s f attempts r candidate w

replaces_old : run behind_proxy no_faults fine spec "web-candidate-1" before ≡ ok deployed after
unfolding run
replaces_old = refl

deploy_runtime-ok_example :
    FoundHealthy behind_proxy fine spec by_process
    × Runs "web-candidate-1" "web:2" after.containers
    × Served spec "web-candidate-1" before after deployed true
deploy_runtime-ok_example =
    deploy_runtime-ok behind_proxy no_faults fine spec "web-candidate-1" before after deployed
      (λ e. cc, tt) (unfold run in replaces_old)

abbrev no_switch : Faults
no_switch = record no_faults { switches = false }

fails_to_switch :
    run behind_proxy no_switch fine spec "web-candidate-1" before ≡ throw switch_calls before
unfolding run
fails_to_switch = refl

deploy_runtime-throw_example : IsKept "web-candidate-1" before before
deploy_runtime-throw_example =
    deploy_runtime-throw behind_proxy no_switch fine spec "web-candidate-1" before before
      switch_calls (inl refl) (unfold run in fails_to_switch)

-- Without the proxy, a renaming that fails comes after the removal of the previous container, and
-- the candidate is removed too: nothing is left.
rename_failure_leaves_nothing :
    run without_proxy (record no_faults { renames = false }) fine spec "web-candidate-1" before
    ≡ throw rename_calls (record before { containers = [] })
unfolding run
rename_failure_leaves_nothing = refl

-- Without the proxy, the container that replaces another publishes no port.
redeployed_unpublished : candidate_host_port without_proxy spec (some old) ≡ none
unfolding candidate_host_port
redeployed_unpublished = refl

start_failure-leaves_case :
    let f = record no_faults { starts = false } in
    (c : Container) × (deploy_runtime behind_proxy f fine spec "web-candidate-1" before
      ≡ throw start_calls (record before { containers = before.containers ++ c ∷ [] }))
    × (c.name ≡ "web-candidate-1")
    × (c.running ≡ false)
unfolding safe_volume_binds
start_failure-leaves_case =
    start_failure-leaves behind_proxy (record no_faults { starts = false }) fine spec
      "web-candidate-1" before refl refl refl refl refl

-- `v:/data`, and `C:\x:/data`.
abbrev volume : Text
volume = b'v' ∷ b':' ∷ b'/' ∷ b'd' ∷ []

check_bind-none_example : (check_bind volume ≡ none) ↔ (
    (source : Text) × (others : List Text) × (join_from source others ≡ volume)
    × (1 ≤ length others)
    × (length others ≤ 2)
    × IsRelative source
    × NoColon source
    × All NoColon others)
check_bind-none_example = check_bind-none volume

drive_path-passes_case :
    check_bind (b'C' ∷ b':' ∷ (0x5c ∷ b'x' ∷ []) ++ b':' ∷ b'/' ∷ b'd' ∷ []) ≡ none
unfolding is_letter
drive_path-passes_case =
    drive_path-passes b'C' (0x5c ∷ b'x' ∷ []) (b'/' ∷ b'd' ∷ []) refl (omega arith) (omega arith)
