-- ===== src/Api/Tests.antt =====
-- Requests to apps/api/src/index.ts, and the theorems at these inputs.
use hostingservices.Common.{
  String, Bool, true, false, Option, none, some, List, [], ◌∷◌, ◌≡◌, ◌≢◌, ◌⊎◌, ◌++◌, inl, inr, refl,
  str_ne, sort_by, arith,
}
use hostingservices.Common.Texts.{Text, text, text_eq, split}
use hostingservices.Database.{Status, ready, queued, starting}
use hostingservices.Rollback.{Answer, answered}
use hostingservices.EngineApi.{whole, job as queued_job, reply, serve, deploy_path}
use hostingservices.Api.{Project, Store, create_deployment}
use hostingservices.Api.Domains.{is_domain, respond}
use hostingservices.Api.Bodies.{DeployRequest, passes}
use hostingservices.Api.Calls.{Node, EngineCall, build, deploy, Setting, deploy_call, engine_secret}
use hostingservices.Api.Deploying.{with_answer, pipeline, row_of}
use hostingservices.Api.Webhooks.{Delivery, verify_github_signature}
use hostingservices.Api.Requests.{
  World, Request, project, domain, verify, deployment, webhook, handle, run, empty_store,
}
use hostingservices.Api.Registry.{Claim, view, AreDistinct}
use hostingservices.Api.Refinement.{Steps, run_refines}
use hostingservices.Api.Proofs.{WasPublished, deployed_domain-proven}
use hostingservices.Api.Forwarding.{serve-deploy_call}
use hostingservices.Api.Deliveries.{webhook-again}
use hostingservices.Worker
use hostingservices.Worker.{Job, Call}
use hostingservices.Api.{Placement}
use hostingservices.Api.Races.{Write, writes_of, apply_writes, last_write, Interleaves, late_answer}
use hostingservices.Api.Pipelines.{HasStatus, Ended, Same, pipeline-Ended}

abbrev engine : EngineCall → Answer
engine (build c) = answered "built"
engine (deploy c) = answered "queued"

abbrev anything : String → Bool
anything s = true

abbrev sign : String → String
sign s = "signed"

abbrev hmac : String → String → String
hmac secret payload = "abc"

abbrev world : World
world = record {
  engine = engine;
  is_url = anything;
  is_name = anything;
  dns_prefix = text "_nexus-verify";
  hmac = hmac;
  webhook_secret = some "hook";
  callback_secret = "";
}

abbrev setting : Setting
setting = record {
  engine_url = "http://engine:4100";
  engine_secret = "signed";
  nodes = [];
  now = 5;
  id = "0a1b2c3d-0000";
}

abbrev shop : Project
shop = record { id = "p"; name = "shop"; repo = some "https://github.com/a/shop"; created_at = 1 }

abbrev name : Text
name = text "shop.example.com"

abbrev body : DeployRequest
body = record {
  project_id = "p";
  repo = some "https://github.com/a/shop";
  ref = none;
  image = none;
  service = none;
  service_type = none;
  command = none;
  is_public = none;
  health_mode = none;
  host_port = none;
  container_port = none;
  health_path = some "/";
  domain = some name;
  replicas = none;
  zero_downtime = none;
  rollback_on_failure = none;
  strategy = some "canary";
  canary_steps = some (whole 10 ∷ whole 100 ∷ []);
  autoscale = none;
  env = none;
  region = none;
  cpu_nano_cpus = none;
  memory_bytes = none;
  pids_limit = none;
}

abbrev push : Delivery
push = record {
  raw = "{}";
  signature = some "sha256=abc";
  id = some "delivery-1";
  event = some "push";
  html_url = some "https://github.com/a/shop";
  ref = some "refs/heads/main";
}

abbrev published : Text → Option (List String)
published record_name = some ("other" ∷ "tok" ∷ [])

abbrev requests : List Request
requests =
    project shop ∷ domain "d" "tok" 2 "p" (text "Shop.example.com") ∷ verify "d" published ∷ []

abbrev local : Node
local = record { name = "local"; endpoint = "http://engine:4100"; region = "local" }

check_is_domain : is_domain (text "shop..com") ≡ false
unfolding is_domain split
check_is_domain = refl

abbrev early : List Request
early = project shop ∷ domain "d" "tok" 2 "p" name ∷ []

-- Without the verification the domain is refused.
check_unverified :
    (handle world (deployment setting body) (run world early empty_store).0).response
    ≡ respond 409 "Domain is not verified for this project"
unfolding handle run split text_eq
check_unverified = refl

deployed_domain-proven_example :
    (c : Claim) × (view (run world requests empty_store).0 name ≡ some c)
    × (c.project_id ≡ "p")
    × WasPublished world requests name c.token
unfolding handle run split text_eq sort_by
deployed_domain-proven_example =
    deployed_domain-proven world requests setting body (deploy_call setting local body) name
      (inr (inl refl)) refl

run_refines_example :
    AreDistinct (run world requests empty_store).0.domains
    × Steps world requests (view empty_store) (view (run world requests empty_store).0)
run_refines_example = run_refines world requests empty_store tt

serve-deploy_call_example :
    serve sign
      (λ b. queued_job "job-1")
      (some "secret")
      (record {
        path = deploy_path;
        engine_secret = some (deploy_call setting local body).engine_secret;
        body_length = 500;
        body = (deploy_call setting local body).checked;
      })
    ≡ some (record {
      response = reply 202 "job-1";
      jobs = (deploy_call setting local body).checked ∷ [];
    })
unfolding engine_secret passes is_domain split
serve-deploy_call_example =
    serve-deploy_call sign (λ b. queued_job "job-1") "secret" anything anything setting local body
      500 "job-1" (omega arith) refl (str_ne "secret" "" refl) (str_ne "signed" "" refl) refl refl

-- The first delivery builds, and the deployment that it adds stays queued.
check_push :
    (handle world
      (webhook setting "nexus/build:1" push)
      (run world (project shop ∷ []) empty_store).0).response
    ≡ respond 200 "processed"
unfolding handle run sort_by
check_push = refl

webhook-again_example :
    let t =
      (run world
        (webhook setting "nexus/build:1" push ∷ early)
        (run world (project shop ∷ []) empty_store).0).0 in
    let o = handle world (webhook setting "nexus/build:2" push) t in (o.store ≡ t) × (o.calls ≡ [])
unfolding verify_github_signature
webhook-again_example =
    webhook-again world setting "nexus/build:1" push early setting "nexus/build:2" push
      (run world (project shop ∷ []) empty_store).0 refl refl refl

abbrev with_shop : Store
with_shop = record empty_store { projects = shop ∷ [] }

abbrev with_row : Store
with_row = record with_shop { deployments = row_of setting body ∷ [] }

pipeline-Ended_example :
    Ended engine setting local body (pipeline engine setting local body with_row)
    × ((id : String)
        → id ≢ setting.id
        → Same engine setting local body id with_shop
            (pipeline engine setting local body with_row).0)
unfolding create_deployment
pipeline-Ended_example = pipeline-Ended engine setting local body with_shop with_row refl

abbrev job : Job
job = record {
  deployment_id = some "0a1b2c3d-0000";
  is_rollback = false;
  previous_image = none;
  replicas = none;
  autoscale_min = none;
  strategy = none;
  attempts_made = 0;
  attempts = some 3;
}

abbrev works : Call → Option String
works c = none

abbrev told : Status → Option Placement
told v = none

late_answer_example :
    let w = last_write local body "queued" in
    let ws = writes_of told (Worker.handle works job).0 in
    ((zs : List Write)
      → Interleaves (w ∷ []) ws zs
      → HasStatus setting.id ready (apply_writes setting.id zs with_row)
        ⊎ HasStatus setting.id starting (apply_writes setting.id zs with_row))
    × Interleaves (w ∷ []) ws (ws ++ w ∷ [])
    × (apply_writes setting.id (ws ++ w ∷ []) with_row
        ≡ with_answer engine setting local body
            (answered "queued")
            (apply_writes setting.id ws with_row))
    × HasStatus setting.id starting (apply_writes setting.id (ws ++ w ∷ []) with_row)
unfolding Worker.handle
late_answer_example =
    late_answer works job told engine setting local body "queued" queued with_row
      (row_of setting body, refl, refl) refl (str_ne "0a1b2c3d-0000" "" refl) refl refl
