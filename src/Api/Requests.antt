-- ===== src/Api/Requests.antt =====
-- The requests to apps/api/src/index.ts that write to the tables of projects, domains, deployments
-- and deliveries, and sequences of them. `World` is what the requests find outside: the engine,
-- the records of DNS, the secret of the webhooks, the functions of the schemas and of Node.
use hostingservices.Common.{
  ℕ, String, Bool, false, Option, none, some, List, [], ◌∷◌, ◌++◌, ◌&&◌, not, leb, any, str_eq,
  if◌then◌else◌,
}
use Prim.Native.String.{len}
use hostingservices.Common.Texts.{Text}
use hostingservices.Database.{Status}
use hostingservices.Rollback.{Answer}
use hostingservices.Api.{Project, Store, Placement, create_project, update_deployment, has_id}
use hostingservices.Api.Bodies.{DeployRequest, if_given}
use hostingservices.Api.Domains.{Response, respond, threw, add_domain, verify_domain}
use hostingservices.Api.Calls.{EngineCall, Setting}
use hostingservices.Api.Deploying.{Outcome, stop, deploy_route}
use hostingservices.Api.Webhooks.{Delivery, github_webhook}

pub record World : Type 0 where
  pub engine : EngineCall → Answer
  pub is_url : String → Bool
  pub is_name : String → Bool
  pub dns_prefix : Text
  pub hmac : String → String → String
  pub webhook_secret : Option String
  pub callback_secret : String

abbrev added : Project → Option Store → Store → Outcome
added p none s = stop threw s
added p (some t) s = stop (respond 201 p.id) t

-- `POST /api/v1/projects`
unfoldable pub add_project : (String → Bool) → Project → Store → Outcome
unfolding create_project
add_project is_url p s =
    if leb 1 (len p.name) && leb (len p.name) 100 && if_given p.repo is_url
    then added p (create_project p s) s
    else stop threw s

-- `POST /api/v1/deployments/:id/status`, the callback of the engine, with its header.
unfoldable pub set_status :
    String → Option String → String → Status → Option Placement → Store → Outcome
unfolding update_deployment
set_status callback_secret header id status runtime s =
    if not (str_eq callback_secret "") && not (is_header header)
    then stop (respond 401 "Unauthorized engine callback") s
    else if any (has_id id) s.deployments
    then stop (respond 200 id) (update_deployment id status runtime s)
    else stop (respond 404 "Deployment not found") s
  where
    is_header : Option String → Bool
    is_header none = false
    is_header (some h) = str_eq h callback_secret

-- A request with what it draws; `verify` has what the query of DNS finds at the time.
pub data Request : Type 0 where
  project : Project → Request
  domain : (id token : String) → ℕ → (project_id : String) → Text → Request
  verify : String → (Text → Option (List String)) → Request
  status : Option String → String → Status → Option Placement → Request
  deployment : Setting → DeployRequest → Request
  webhook : Setting → String → Delivery → Request

abbrev pub without_calls : Response × Store → Outcome
without_calls (r, s) = stop r s

unfoldable pub handle : World → Request → Store → Outcome
unfolding add_project add_domain verify_domain set_status deploy_route github_webhook
handle w (project p) s = add_project w.is_url p s
handle w (domain id token now project_id name) s =
    without_calls (add_domain id token now project_id name s)
handle w (verify id resolve_txt) s = without_calls (verify_domain resolve_txt w.dns_prefix id s)
handle w (status header id value runtime) s = set_status w.callback_secret header id value runtime s
handle w (deployment e b) s = deploy_route w.engine e b w.is_url w.is_name s
handle w (webhook e image d) s = github_webhook e image d w.hmac w.webhook_secret s

-- The tables after requests that are handled one after the other, and the calls of the engine that
-- they made.
unfoldable pub run : World → List Request → Store → Store × List EngineCall
unfolding handle
run w [] s = (s, [])
run w (r ∷ rs) s =
    let o = handle w r s in let (t, calls) = run w rs o.store in (t, o.calls ++ calls)

abbrev pub empty_store : Store
empty_store = record { projects = []; domains = []; deployments = []; deliveries = [] }
