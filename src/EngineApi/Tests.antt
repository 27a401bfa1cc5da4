-- ===== src/EngineApi/Tests.antt =====
-- Requests to the engine of apps/engine/src/index.ts, and the theorems at these inputs.
use hostingservices.Common.{
  get_or, ap, sym, ◌∙◌, ℕ, String, true, false, none, some, [], ◌∷◌, ◌≡◌, ◌≢◌, ◌↔◌, ◌⊎◌, inl, refl,
  str_ne, sort_by,
}
use hostingservices.Database.{ready, Deployment, Table, list_deployments, find_id}
use hostingservices.Rollback.{no_runtime, rollback_to}
use hostingservices.Rollback.Requests.{HasFailed}
use hostingservices.Rollback.Acceptance.{IsAllowed}
use hostingservices.EngineApi.{
  whole, DeployBody, Request, Added, job, hung_up, reply, serve, validate, verify_internal_secret,
  internal_auth_header, deploy_path, rollback_path,
}
use hostingservices.EngineApi.Validation.{IsValid, validate-IsValid}
use hostingservices.EngineApi.Callers.{
  verify_internal_secret_iff, verify-header, serve-unauthorized, serve-IsValid, call_engine,
  rollback_to-unauthorized,
}

-- A stand-in of the signature.
abbrev sign : String → String
sign s = "signed"

abbrev secret : String
secret = "secret"

abbrev signature : String
signature = "signed"

abbrev add : DeployBody → Added
add b = job "job-1"

abbrev body : DeployBody
body = record {
  name = some "web";
  image = some "image:1";
  previous_image = none;
  strategy = some "canary";
  canary_steps = some (whole 5 ∷ whole 100 ∷ []);
  replicas = some (whole 2);
  autoscale =
      some (record { min = whole 1; max = whole 4; cpu_percent = 70; interval_seconds = some 30 });
  command = none;
  health_mode = some "http";
  cpu_nano_cpus = none;
  memory_bytes = none;
  pids_limit = none;
  volume_binds = none;
}

abbrev request : Request
request = record {
  path = deploy_path;
  engine_secret = some "signed";
  body_length = 200;
  body = body;
}

abbrev stranger : Request
stranger = record request { engine_secret = none }

is_valid : validate false body ≡ none
unfolding validate
is_valid = refl

early_steps :
    validate false (record body { canary_steps = some (whole 5 ∷ []) })
    ≡ some "canarySteps must end at 100"
unfolding validate
early_steps = refl

is_queued :
    serve sign add (some "secret") request
    ≡ some (record { response = reply 202 "job-1"; jobs = body ∷ [] })
unfolding serve validate verify_internal_secret
is_queued = refl

-- A body of more than 1,000,000 characters is not queued.
is_dropped :
    serve sign add (some "secret") (record request { body_length = 1_000_001 })
    ≡ some (record { response = hung_up; jobs = [] })
unfolding serve verify_internal_secret
is_dropped = refl

validate-IsValid_case : IsValid false body
validate-IsValid_case = validate-IsValid false body is_valid

serve-IsValid_example :
    (verify_internal_secret sign (some "secret") (some "signed") ≡ true)
    × (body ≡ body)
    × (((deploy_path ≡ deploy_path) × IsValid false body)
        ⊎ ((deploy_path ≡ rollback_path) × IsValid true body))
serve-IsValid_example =
    serve-IsValid sign add (some "secret") request
      (record { response = reply 202 "job-1"; jobs = body ∷ [] }) body refl is_queued (inl refl)

stranger_is_unverified : verify_internal_secret sign (some "secret") none ≡ false
unfolding verify_internal_secret
stranger_is_unverified = refl

serve-unauthorized_case :
    serve sign add (some "secret") stranger
    ≡ some (record { response = reply 401 "Unauthorized engine request"; jobs = [] })
serve-unauthorized_case =
    serve-unauthorized sign add (some "secret") stranger refl stranger_is_unverified

verify_internal_secret_iff_case :
    (verify_internal_secret sign (some "secret") (some "signed") ≡ true)
    ↔ ((secret ≢ "") × (signature ≢ "") × (signature ≡ sign secret))
verify_internal_secret_iff_case = verify_internal_secret_iff sign (some "secret") (some "signed")

header : internal_auth_header sign (some "secret") ≡ some "signed"
unfolding internal_auth_header
header = refl

verify-header_case : verify_internal_secret sign (some "secret") (some "signed") ≡ true
verify-header_case = verify-header sign (some "secret") "signed" header (str_ne "signed" "" refl)

abbrev row : String → String → ℕ → Deployment
row id image at = record {
  id = id;
  project_id = "p";
  status = ready;
  image = image;
  repo = none;
  runtime = none;
  created_at = at;
}

abbrev table : Table
table = row "d2" "image:2" 2 ∷ row "d1" "image:1" 1 ∷ []

new_row_found : find_id "d2" (list_deployments table) ≡ some (row "d2" "image:2" 2)
unfolding list_deployments sort_by
new_row_found = refl

old_row_found : find_id "d1" (list_deployments table) ≡ some (row "d1" "image:1" 1)
unfolding list_deployments sort_by
old_row_found = refl

allowed : IsAllowed true "d2" (some "d1") table (row "d2" "image:2" 2) (row "d1" "image:1" 1)
allowed = record {
  user = refl;
  names = refl;
  other = str_ne "d1" "d2" refl;
  is_current = new_row_found;
  is_found = old_row_found;
  is_target = record {
    was_ready = refl;
    is_healthy = refl;
    project = refl;
    repo = λ a b p q m n. ap (λ o. get_or o "") (sym p ∙ q);
    image = str_ne "image:1" "" refl;
  };
}

rollback_to-unauthorized_example :
    HasFailed "d2" no_runtime "Error: {\"error\":\"Unauthorized engine request\"}" table
      (rollback_to (call_engine sign add (some "secret") (λ q. 100)) true "d2" (some "d1") table)
rollback_to-unauthorized_example =
    rollback_to-unauthorized sign add (some "secret") (λ q. 100) "d2" table (row "d2" "image:2" 2)
      (row "d1" "image:1" 1) allowed (str_ne "d1" "" refl)
