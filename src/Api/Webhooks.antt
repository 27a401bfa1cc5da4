-- ===== src/Api/Webhooks.antt =====
-- The webhook of GitHub in apps/api/src/index.ts. The HMAC of a secret and a payload, in hex, is
-- an argument, and the payload's JSON is given by the fields that the code reads.
use Prim.Native.String.{len, slice}
use text.Mathlib.Text.{starts_with}
use hostingservices.Common.{
  String, Bool, false, Option, none, some, [], ◌∷◌, ◌==◌, get_or, str_eq, if◌then◌else◌,
}
use hostingservices.Database.{queued}
use hostingservices.EngineApi.{is_missing}
use hostingservices.Api.{
  Project, Deployment, Store, find_project_by_repo, create_deployment, claim_github_delivery,
}
use hostingservices.Api.Domains.{respond, threw}
use hostingservices.Api.Calls.{Node, engine_endpoint, BuildCall, build, Setting}
use hostingservices.Api.Deploying.{Outcome, stop}

pub record Delivery : Type 0 where
  pub raw : String
  pub signature : Option String
  pub id : Option String
  pub event : Option String
  pub html_url : Option String
  pub ref : Option String

-- `verifyGithubSignature`
unfoldable pub verify_github_signature :
    (String → String → String) → Option String → String → Option String → Bool
verify_github_signature hmac secret payload signature =
    if is_missing secret
    then false
    else if starts_with (get_or signature "") "sha256="
    then (let expected = hmac (get_or secret "") payload in
        let provided = slice (get_or signature "") 7 (len (get_or signature "")) in
        if len provided == len expected then str_eq provided expected else false)
    else false

-- `ref.replace(/^refs\/heads\//, '')`
abbrev pub branch_of : String → String
branch_of ref = if starts_with ref "refs/heads/" then slice ref 11 (len ref) else ref

abbrev pub pushed_row : Setting → String → Project → String → Deployment
pushed_row e image p repo = record {
  id = e.id;
  project_id = p.id;
  status = queued;
  image = image;
  repo = some repo;
  runtime = none;
  created_at = e.now;
}

abbrev pub pushed_call : Setting → Node → String → String → String → BuildCall
pushed_call e node image repo ref = record {
  endpoint = node.endpoint;
  engine_secret = e.engine_secret;
  deployment_id = some e.id;
  repo = repo;
  ref = branch_of ref;
  image = image;
  service = none;
}

-- The build is asked for, and its answer is not looked at. `image` is the name with the second id
-- that is drawn.
module _ (e : Setting) (image : String) (d : Delivery) where
  abbrev pub push_build : String → Option Store → Store → Outcome
  push_build repo none s = stop threw s
  push_build repo (some t) s =
      let node = engine_endpoint e.engine_url e.now e.nodes none in
      record {
        response = respond 200 "processed";
        store = t;
        calls = build (pushed_call e node image repo (get_or d.ref "")) ∷ [];
      }

  abbrev pub push_project : String → Option Project → Store → Outcome
  push_project repo none s = stop (respond 200 "processed") s
  push_project repo (some p) s = push_build repo (create_deployment (pushed_row e image p repo) s) s

  abbrev pub process : Store → Outcome
  process s =
      if str_eq (get_or d.event "") "push"
      then (if is_missing d.html_url
          then stop (respond 200 "processed") s
          else push_project (get_or d.html_url "") (find_project_by_repo (get_or d.html_url "") s)
              s)
      else stop (respond 200 "processed") s

  abbrev pub claimed : Option Store → Store → Outcome
  claimed none s = stop (respond 200 "deduplicated") s
  claimed (some t) s = process t

  -- `POST /api/webhooks/github`
  unfoldable pub github_webhook : (String → String → String) → Option String → Store → Outcome
  unfolding verify_github_signature claim_github_delivery find_project_by_repo create_deployment
      engine_endpoint
  github_webhook hmac secret s =
      if verify_github_signature hmac secret d.raw d.signature
      then (if is_missing d.id
          then stop (respond 400 "Missing X-GitHub-Delivery") s
          else claimed (claim_github_delivery (get_or d.id "") s) s)
      else stop (respond 401 "Invalid webhook signature") s
