-- ===== src/Build/Tests.antt =====
-- A monorepo, its build by apps/engine/src/build.ts, and the theorems at these inputs.
use hostingservices.Common.{
  ◌≤◌, String, Bool, true, false, Option, none, some, List, [], ◌∷◌, ◌≡◌, ◌≢◌, ◌⊎◌, refl, In,
  length, map, str_ne,
}
use hostingservices.Common.Texts.{Text, text}
use hostingservices.Sandbox.{Environment, docker_build_args, build_sandbox_policy}
use hostingservices.Build.{BuildLogs, max_log_size, keep_last, get_build_logs, clear_build_logs}
use hostingservices.Build.Logs.{written, append_all, logs_hold}
use hostingservices.Build.Detecting.{
  Entry, Checkout, Detection, found, no_service, candidates, name_of, service_at, detect_dockerfile,
}
use hostingservices.Build.Services.{IsService, detect_dockerfile-requested}
use hostingservices.Build.Building.{
  BuildRequest, Command, rev_parse, inspect, Built, clone, docker_build, build_from_git,
}
use hostingservices.Build.Built.{AllRan, IsClone, IsInspected, build_from_git-ok}

abbrev writes : List (Option String × Text)
writes =
    (some "d1", text "one")
    ∷ (none, text "x")
    ∷ (some "d2", text "y")
    ∷ (some "d1", text "two")
    ∷ []

abbrev old_logs : BuildLogs
old_logs = ("d1", text "old") ∷ []

-- The last characters are kept.
check_keep_last : keep_last 2 (text "abc") ≡ text "bc"
check_keep_last = refl

logs_hold_example :
    (get_build_logs "d1" (append_all writes (clear_build_logs "d1" old_logs))
      ≡ keep_last max_log_size (written "d1" writes))
    × (length (get_build_logs "d1" (append_all writes (clear_build_logs "d1" old_logs)))
        ≤ max_log_size)
logs_hold_example = logs_hold "d1" writes old_logs (str_ne "d1" "" refl)

abbrev directory : String → Entry
directory name = record { name = name; is_directory = true; has_dockerfile = true }

abbrev no_file : String → Bool
no_file name = false

abbrev monorepo : Checkout
monorepo = record {
  dir = "/tmp/b";
  has_file = no_file;
  entries = directory ".github" ∷ directory "web" ∷ directory "api" ∷ [];
  package_json = none;
}

abbrev same : String → String
same s = s

-- Without a request the preferred service is built.
check_default :
    detect_dockerfile same monorepo none
    ≡ found (service_at monorepo (directory "web" ∷ directory "api" ∷ []) (directory "api"))
unfolding detect_dockerfile candidates
check_default = refl

has_services : candidates monorepo ≢ []
unfolding candidates
has_services h = cc

detect_dockerfile-requested_example :
    ((e : Entry) × (x : Detection) × (detect_dockerfile same monorepo (some "web") ≡ found x)
      × IsService monorepo "web" e x)
    ⊎ ((In "web" (map name_of (candidates monorepo)) → ⊥)
        × (detect_dockerfile same monorepo (some "web")
            ≡ no_service "web" (map name_of (candidates monorepo))))
detect_dockerfile-requested_example =
    detect_dockerfile-requested same monorepo "web" refl has_services (str_ne "web" "" refl)

abbrev environment : Environment
environment = record {
  production = true;
  build_network = none;
  build_memory = none;
  build_cpus = none;
  build_pids = none;
  build_timeout_ms = none;
}

abbrev request : BuildRequest
request = record {
  repo = "https://github.com/a/shop";
  ref = some "main";
  image = "shop:1";
  service = some "web";
}

abbrev runs : Command → Option String
runs c = some "abc"

abbrev image_id : String → Option String
image_id json = some "sha256:1"

abbrev built : Built
built = record {
  image = "shop:1";
  image_id = "sha256:1";
  source_commit = "abc";
  detection = service_at monorepo (directory "web" ∷ directory "api" ∷ []) (directory "web");
}

build_from_git-ok_example :
    (args : List String) × IsClone request "/tmp/b" args
    × (detect_dockerfile same monorepo (some "web") ≡ found built.detection)
    × ((build_from_git runs image_id same environment monorepo request).commands
        ≡ clone args
          ∷ rev_parse "/tmp/b"
          ∷ docker_build (
              docker_build_args
                (build_sandbox_policy environment)
                "/tmp/b/web/Dockerfile"
                "shop:1"
                "/tmp/b/web")
          ∷ inspect "shop:1"
          ∷ [])
    × AllRan runs (build_from_git runs image_id same environment monorepo request).commands
    × (runs (rev_parse "/tmp/b") ≡ some "abc")
    × (built.image ≡ request.image)
    × IsInspected runs image_id "shop:1" "sha256:1"
unfolding build_from_git
build_from_git-ok_example =
    build_from_git-ok runs image_id same environment monorepo request built refl
