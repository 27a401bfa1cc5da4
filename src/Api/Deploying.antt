-- ===== src/Api/Deploying.antt =====
-- The route `POST /api/v1/deployments` of apps/api/src/index.ts: the checks of a request, the row
-- that it adds and the pipeline that runs after the answer, which calls the engine for the build
-- and for the deployment. What the engine answers, the rows of the nodes and the id that is drawn
-- are arguments.
use hostingservices.Common.{
  String, Bool, Option, none, some, List, [], ◌∷◌, ◌&&◌, not, is_some, if◌then◌else◌, false,
}
use hostingservices.Common.Texts.{Text}
use hostingservices.Database.{queued, building, starting, failed}
use hostingservices.Rollback.{Answer, answered, broken}
use hostingservices.EngineApi.{is_missing}
use hostingservices.Api.{
  Deployment, Store, project_exists, get_verified_domain, create_deployment, update_deployment,
}
use hostingservices.Api.Bodies.{DeployRequest, passes}
use hostingservices.Api.Domains.{Response, respond, threw}
use hostingservices.Api.Calls.{
  Node, engine_endpoint, BuildCall, EngineCall, build, deploy, Setting, public_of, image_of,
  domain_of, deploy_call, build_call, placed,
}

module _ (engine : EngineCall → Answer) (e : Setting) (node : Node) (b : DeployRequest) where
  -- The `catch` of the pipeline.
  abbrev pub fail_with : String → Store → Store
  fail_with error s =
      update_deployment e.id failed (some (record (placed node b) { error = some error })) s

  abbrev pub with_answer : Answer → Store → Store
  with_answer (broken error) s = fail_with error s
  with_answer (answered value) s =
      update_deployment e.id starting (some (record (placed node b) { engine_answer = some value }))
        s

  abbrev pub start : Store → Store × List EngineCall
  start s =
      let call = deploy (deploy_call e node b) in
      (
        with_answer (engine call) (update_deployment e.id starting (some (placed node b)) s),
        call ∷ [],
      )

  abbrev pub after_build : BuildCall → Answer → Store → Store × List EngineCall
  after_build c (broken error) s = (fail_with error s, build c ∷ [])
  after_build c (answered value) s = let (t, calls) = start s in (t, build c ∷ calls)

  abbrev pub run_source : Option String → Store → Store × List EngineCall
  run_source none s = start s
  run_source (some repo) s =
      let c = build_call e node repo b in
      after_build c (engine (build c)) (update_deployment e.id building (some (placed node b)) s)

  -- What runs after the answer, with the calls of the engine in their order.
  unfoldable pub pipeline : Store → Store × List EngineCall
  unfolding update_deployment deploy_call
  pipeline s = run_source b.repo s

-- The route's answer, the tables after it and its pipeline, and the calls of the engine.
pub record Outcome : Type 0 where
  pub response : Response
  pub store : Store
  pub calls : List EngineCall

abbrev pub stop : Response → Store → Outcome
stop r s = record { response = r; store = s; calls = [] }

abbrev is_unverified : String → Option Text → Store → Bool
is_unverified project_id none s = false
is_unverified project_id (some t) s = not (is_some (get_verified_domain project_id t s))

-- The checks of a body that passes the schema: the first that refuses it.
unfoldable pub refusal : DeployRequest → Store → Option Response
unfolding project_exists get_verified_domain
refusal b s =
    if not (project_exists b.project_id s)
    then some (respond 404 "Project not found")
    else if is_missing b.repo && is_missing b.image
    then some (respond 400 "repo or image is required")
    else if is_unverified b.project_id (domain_of b) s
    then some (respond 409 "Domain is not verified for this project")
    else if is_some b.domain && not (public_of b)
    then some (respond 400 "A custom domain requires public=true")
    else none

abbrev pub row_of : Setting → DeployRequest → Deployment
row_of e b = record {
  id = e.id;
  project_id = b.project_id;
  status = queued;
  image = image_of e.id b;
  repo = b.repo;
  runtime = none;
  created_at = e.now;
}

module _ (engine : EngineCall → Answer) (e : Setting) (b : DeployRequest) where
  abbrev pub accepted : Option Store → Store → Outcome
  accepted none s = stop threw s
  accepted (some t) s =
      let (u, calls) =
        pipeline engine e (engine_endpoint e.engine_url e.now e.nodes b.region) b t in
      record { response = respond 202 e.id; store = u; calls = calls }

  abbrev pub checked : Option Response → Store → Outcome
  checked (some r) s = stop r s
  checked none s = accepted (create_deployment (row_of e b) s) s

  -- `POST /api/v1/deployments`, with the schema's tests of URLs and names.
  unfoldable pub deploy_route : (is_url is_name : String → Bool) → Store → Outcome
  unfolding passes refusal create_deployment pipeline engine_endpoint
  deploy_route is_url is_name s =
      if passes is_url is_name b then checked (refusal b s) s else stop threw s
