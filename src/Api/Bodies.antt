-- ===== src/Api/Bodies.antt =====
-- The body of `POST /api/v1/deployments` and its schema in apps/api/src/index.ts. `is_url` is the
-- schema's test for URLs. A field of another type than the schema's is left out, except numbers
-- that must be whole, which are those of EngineApi; the other numbers are whole.
use Prim.Native.String.{len}
use text.Mathlib.Text.{starts_with}
use hostingservices.Common.{
  ℕ, String, Bool, true, Option, none, some, List, [], ◌∷◌, ◌&&◌, not, all, length, leb, get_or,
  str_eq, if◌then◌else◌,
}
use hostingservices.Common.Texts.{Text}
use hostingservices.EngineApi.{
  Number, whole, Autoscale, is_bad_number, is_outside, is_one_of, exceeds, ends_at,
}
use hostingservices.Api.Domains.{is_domain}

pub record DeployRequest : Type 0 where
  pub project_id : String
  pub repo : Option String
  pub ref : Option String
  pub image : Option String
  pub service : Option String
  pub service_type : Option String
  pub command : Option (List String)
  pub is_public : Option Bool
  pub health_mode : Option String
  pub host_port : Option ℕ
  pub container_port : Option ℕ
  pub health_path : Option String
  pub domain : Option Text
  pub replicas : Option Number
  pub zero_downtime : Option Bool
  pub rollback_on_failure : Option Bool
  pub strategy : Option String
  pub canary_steps : Option (List Number)
  pub autoscale : Option Autoscale
  pub env : Option (List (String × String))
  pub region : Option String
  pub cpu_nano_cpus : Option ℕ
  pub memory_bytes : Option ℕ
  pub pids_limit : Option Number

-- A field that is absent passes, and one that is given passes the test.
abbrev pub if_given {ℓ} : {A : Type ℓ} → Option A → (A → Bool) → Bool
if_given none test = true
if_given (some a) test = test a

abbrev pub has_length : ℕ → ℕ → String → Bool
has_length low high v = not (is_outside low high (len v))

abbrev pub is_filled : String → Bool
is_filled v = leb 1 (len v)

-- A service's name: its characters are the argument `is_name`, for the schema's pattern.
abbrev pub is_service : (String → Bool) → String → Bool
is_service is_name v = has_length 1 100 v && is_name v

abbrev pub is_command : List String → Bool
is_command parts = leb (length parts) 32 && all (has_length 1 2000) parts

abbrev pub is_autoscale : Autoscale → Bool
is_autoscale a =
    not (is_bad_number 1 20 a.min)
    && not (is_bad_number 1 20 a.max)
    && not (is_outside 1 100 a.cpu_percent)
    && if_given a.interval_seconds (λ n. not (is_outside 10 300 n))
    && not (exceeds a.min a.max)

abbrev pub are_steps : List Number → Bool
are_steps steps = leb (length steps) 10 && all (λ n. not (is_bad_number 1 100 n)) steps

-- Each step is greater than the one before it.
abbrev pub is_increasing : List Number → Bool
is_increasing [] = true
is_increasing (s ∷ []) = true
is_increasing (s ∷ t ∷ steps) = exceeds t s && is_increasing (t ∷ steps)

abbrev pub default_steps : List Number
default_steps = whole 5 ∷ whole 25 ∷ whole 50 ∷ whole 100 ∷ []

abbrev pub strategy_of : DeployRequest → String
strategy_of b = get_or b.strategy "rolling"

abbrev pub service_type_of : DeployRequest → String
service_type_of b = get_or b.service_type "web"

-- The refinement of the schema: the steps of a canary.
abbrev pub is_canary_plan : DeployRequest → Bool
is_canary_plan b =
    if str_eq (strategy_of b) "canary"
    then (let steps = get_or b.canary_steps default_steps in
        ends_at 100 steps && is_increasing steps)
    else true

module _ (is_url is_name : String → Bool) where
  abbrev pub source_passes : DeployRequest → Bool
  source_passes b =
      if_given b.repo is_url
      && is_filled (get_or b.ref "main")
      && if_given b.image is_filled
      && if_given b.service (is_service is_name)
      && is_one_of ("web" ∷ "worker" ∷ "cron" ∷ "private" ∷ []) (service_type_of b)

  abbrev pub network_passes : DeployRequest → Bool
  network_passes b =
      if_given b.host_port (λ n. not (is_outside 1 65535 n))
      && not (is_outside 1 65535 (get_or b.container_port 80))
      && if_given b.health_path (λ v. starts_with v "/" && leb (len v) 200)
      && if_given b.domain is_domain
      && if_given b.region (has_length 1 64)

  abbrev pub runtime_passes : DeployRequest → Bool
  runtime_passes b =
      if_given b.command is_command
      && if_given b.health_mode (is_one_of ("auto" ∷ "http" ∷ "docker" ∷ "process" ∷ []))
      && not (is_bad_number 1 20 (get_or b.replicas (whole 1)))
      && is_one_of ("rolling" ∷ "blue_green" ∷ "canary" ∷ []) (strategy_of b)
      && if_given b.canary_steps are_steps
      && if_given b.autoscale is_autoscale
      && if_given b.cpu_nano_cpus (λ n. not (is_outside 10000000 64000000000 n))
      && if_given b.memory_bytes (λ n. not (is_outside 16777216 274877906944 n))
      && if_given b.pids_limit (λ n. not (is_bad_number 32 100000 n))

  -- The schema takes the body.
  unfoldable pub passes : DeployRequest → Bool
  passes b = source_passes b && network_passes b && runtime_passes b && is_canary_plan b
