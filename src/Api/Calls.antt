-- ===== src/Api/Calls.antt =====
-- The calls of the engine by apps/api/src/index.ts: `engineEndpoint`, which places a deployment on
-- a node of the table, and the requests for a build and for a deployment from the body of a
-- request.
use Prim.Native.String.{◌++◌ as ◌+++◌, slice}
use hostingservices.Common.{
  ℕ, ◌*◌, String, Bool, true, Option, none, some, List, ◌||◌, get_or, str_eq, if◌then◌else◌,
}
use hostingservices.Common.Texts.{Text, lower}
use hostingservices.Recovery.{NodeRow, select_deployment_node}
use hostingservices.EngineApi.{whole, DeployBody, is_missing}
use hostingservices.Api.{Placement}
use hostingservices.Api.Bodies.{DeployRequest, strategy_of, service_type_of}

-- A `DeploymentNode`, as far as the calls use it.
pub record Node : Type 0 where
  pub name : String
  pub endpoint : String
  pub region : String

abbrev pub node_of : String → Option NodeRow → Node
node_of engine_url none = record { name = "local"; endpoint = engine_url; region = "local" }
node_of engine_url (some r) = record {
  name = r.node.name;
  endpoint = r.endpoint;
  region = r.node.region;
}

-- `engineEndpoint`
unfoldable pub engine_endpoint : String → ℕ → List NodeRow → Option String → Node
unfolding select_deployment_node
engine_endpoint engine_url now nodes preferred =
    node_of engine_url (select_deployment_node now nodes 100 (128 * 1024 * 1024) preferred)

pub record BuildCall : Type 0 where
  pub endpoint : String
  pub engine_secret : String
  pub deployment_id : Option String
  pub repo : String
  pub ref : String
  pub image : String
  pub service : Option String

-- The call for the deployment: the headers, what the engine checks of the body (`checked`), and
-- the rest of it.
pub record DeployCall : Type 0 where
  pub endpoint : String
  pub engine_secret : String
  pub idempotency_key : String
  pub checked : DeployBody
  pub deployment_id : String
  pub node_name : String
  pub container_port : ℕ
  pub host_port : Option ℕ
  pub is_public : Bool
  pub health_path : Option String
  pub domain : Option Text
  pub env : Option (List (String × String))
  pub zero_downtime : Bool
  pub rollback_on_failure : Bool

pub data EngineCall : Type 0 where
  build : BuildCall → EngineCall
  deploy : DeployCall → EngineCall

-- What the environment, the clock and the random numbers give a request.
pub record Setting : Type 0 where
  pub engine_url : String
  pub engine_secret : String
  pub nodes : List NodeRow
  pub now : ℕ
  pub id : String

-- `engineSecret`: the HMAC of the fixed text under the secret, which is there in production.
unfoldable pub engine_secret : (String → String) → Option String → String
engine_secret sign secret =
    sign (if is_missing secret then "change-this-secret" else get_or secret "")

abbrev pub public_of : DeployRequest → Bool
public_of b = get_or b.is_public (str_eq (service_type_of b) "web")

abbrev pub health_mode_of : DeployRequest → String
health_mode_of b = get_or b.health_mode (
    if str_eq (service_type_of b) "worker" || str_eq (service_type_of b) "cron"
    then "process"
    else "auto")

-- The image that is built or run; one of the two is given.
abbrev pub image_of : String → DeployRequest → String
image_of id b = get_or b.image ("nexus/build:" +++ slice id 0 12)

abbrev pub name_of : String → String
name_of id = "nexus-" +++ slice id 0 8

abbrev lowered : Option Text → Option Text
lowered none = none
lowered (some t) = some (lower t)

-- The schema lowers the domain.
abbrev pub domain_of : DeployRequest → Option Text
domain_of b = lowered b.domain

unfoldable pub deploy_call : Setting → Node → DeployRequest → DeployCall
deploy_call e node b = record {
  endpoint = node.endpoint;
  engine_secret = e.engine_secret;
  idempotency_key = "deployment:" +++ e.id;
  checked = record {
    name = some (name_of e.id);
    image = some (image_of e.id b);
    previous_image = none;
    strategy = some (strategy_of b);
    canary_steps = b.canary_steps;
    replicas = some (get_or b.replicas (whole 1));
    autoscale = b.autoscale;
    command = b.command;
    health_mode = some (health_mode_of b);
    cpu_nano_cpus = b.cpu_nano_cpus;
    memory_bytes = b.memory_bytes;
    pids_limit = b.pids_limit;
    volume_binds = none;
  };
  deployment_id = e.id;
  node_name = node.name;
  container_port = get_or b.container_port 80;
  host_port = b.host_port;
  is_public = public_of b;
  health_path = b.health_path;
  domain = domain_of b;
  env = b.env;
  zero_downtime = get_or b.zero_downtime true;
  rollback_on_failure = get_or b.rollback_on_failure true;
}

abbrev pub build_call : Setting → Node → String → DeployRequest → BuildCall
build_call e node repo b = record {
  endpoint = node.endpoint;
  engine_secret = e.engine_secret;
  deployment_id = some e.id;
  repo = repo;
  ref = get_or b.ref "main";
  image = image_of e.id b;
  service = b.service;
}

abbrev pub placed : Node → DeployRequest → Placement
placed node b = record {
  node_name = node.name;
  region = node.region;
  strategy = strategy_of b;
  canary_steps = b.canary_steps;
  engine_answer = none;
  error = none;
}
