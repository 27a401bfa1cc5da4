-- ===== src/EngineApi.antt =====
-- The engine's HTTP interface for deployments and rollbacks: apps/engine/src/index.ts and
-- apps/engine/src/node-auth.ts. `sign` is the HMAC of the fixed text under a secret, in hex; `add`
-- is the queue, which gives the id of the job or fails. Fields whose value has another type than
-- the type `DeployBody` says are left out, except numbers: a number that must be whole is `whole
-- n`, and `not_whole` for a fraction or a negative one.
pub mod Validation
pub mod Callers
mod Tests
use Prim.Native.String.{len}
use text.Mathlib.Text.{starts_with}
use hostingservices.Common.{
  ℕ, String, Bool, true, false, Option, none, some, List, [], ◌∷◌, ◌&&◌, ◌||◌, not, any, length,
  is_some, get_or, ltb, ◌==◌, str_eq, if◌then◌else◌,
}

pub data Number : Type 0 where
  whole : ℕ → Number
  not_whole : Number

pub record Autoscale : Type 0 where
  pub min : Number
  pub max : Number
  pub cpu_percent : ℕ
  pub interval_seconds : Option ℕ

pub record DeployBody : Type 0 where
  pub name : Option String
  pub image : Option String
  pub previous_image : Option String
  pub strategy : Option String
  pub canary_steps : Option (List Number)
  pub replicas : Option Number
  pub autoscale : Option Autoscale
  pub command : Option (List String)
  pub health_mode : Option String
  pub cpu_nano_cpus : Option ℕ
  pub memory_bytes : Option ℕ
  pub pids_limit : Option Number
  pub volume_binds : Option (List String)

-- A text that is absent or empty.
abbrev pub is_missing : Option String → Bool
is_missing o = str_eq (get_or o "") ""

abbrev pub is_outside : ℕ → ℕ → ℕ → Bool
is_outside low high n = ltb n low || ltb high n

abbrev pub is_bad_number : ℕ → ℕ → Number → Bool
is_bad_number low high (whole n) = is_outside low high n
is_bad_number low high not_whole = true

-- `value !== undefined && test(value)`.
abbrev pub given_and {ℓ} : {A : Type ℓ} → Option A → (A → Bool) → Bool
given_and none test = false
given_and (some a) test = test a

abbrev pub is_one_of : List String → String → Bool
is_one_of names v = any (str_eq v) names

-- `value && !names.includes(value)`.
abbrev pub is_unknown : List String → Option String → Bool
is_unknown names o = if is_missing o then false else not (is_one_of names (get_or o ""))

abbrev pub bad_replicas : Option Number → Bool
bad_replicas o = given_and o (is_bad_number 1 20)

abbrev pub bad_steps : Option (List Number) → Bool
bad_steps o = given_and o (λ steps. ltb 10 (length steps) || any (is_bad_number 1 100) steps)

abbrev pub ends_at : ℕ → List Number → Bool
ends_at n [] = false
ends_at n (whole m ∷ []) = m == n
ends_at n (not_whole ∷ []) = false
ends_at n (s ∷ t ∷ steps) = ends_at n (t ∷ steps)

abbrev pub ends_early : Option String → Option (List Number) → Bool
ends_early strategy o =
    str_eq (get_or strategy "") "canary" && given_and o (λ steps. not (ends_at 100 steps))

abbrev pub exceeds : Number → Number → Bool
exceeds (whole a) (whole b) = ltb b a
exceeds _ _ = true

abbrev pub bad_autoscale : Option Autoscale → Bool
bad_autoscale o = given_and o (λ a.
    is_bad_number 1 20 a.min
    || is_bad_number 1 20 a.max
    || exceeds a.min a.max
    || is_outside 1 100 a.cpu_percent
    || given_and a.interval_seconds (is_outside 10 300))

abbrev pub bad_texts : ℕ → ℕ → Option (List String) → Bool
bad_texts count size o = given_and o (λ vs. ltb count (length vs) || any (λ v. ltb size (len v)) vs)

-- An `if` that answers 400 with the error, before what follows.
abbrev pub check : Bool → String → Option String → Option String
check bad error rest = if bad then some error else rest

-- The checks of the body, in their order: the first error.
unfoldable pub validate : Bool → DeployBody → Option String
validate rollback b =
    let source = if rollback then b.previous_image else b.image in
    check (is_missing b.name || is_missing source)
      (if rollback then "name and previousImage are required" else "name and image are required")
      (check (bad_replicas b.replicas) "replicas must be an integer between 1 and 20" (
        check (is_unknown ("rolling" ∷ "blue_green" ∷ "canary" ∷ []) b.strategy)
          "strategy must be rolling, blue_green or canary"
          (check (bad_steps b.canary_steps)
            "canarySteps must contain up to 10 integer percentages from 1 to 100"
            (check (ends_early b.strategy b.canary_steps) "canarySteps must end at 100" (
              check (given_and b.cpu_nano_cpus (is_outside 10000000 64000000000))
                "cpuNanoCpus must be between 10m and 64 CPUs"
                (check (given_and b.memory_bytes (is_outside 16777216 274877906944))
                  "memoryBytes must be between 16MiB and 256GiB"
                  (check (given_and b.pids_limit (is_bad_number 32 100000))
                    "pidsLimit must be between 32 and 100000"
                    (check (bad_texts 16 1000 b.volume_binds)
                      "volumeBinds must contain at most 16 strings"
                      (check (bad_autoscale b.autoscale)
                        "autoscale must have 1<=min<=max<=20, cpuPercent 1-100 and intervalSeconds 10-300"
                        (check (bad_texts 32 2000 b.command)
                          "command must be an array of up to 32 strings"
                          (check
                            (is_unknown ("auto" ∷ "http" ∷ "docker" ∷ "process" ∷ []) b.health_mode)
                            "invalid healthMode" none)))))))))))

abbrev pub is_protected : String → Bool
is_protected path =
    starts_with path "/api/v1/runtime/"
    || str_eq path "/api/v1/managed-data/provision"
    || str_eq path "/api/v1/queue"
    || str_eq path "/api/v1/runtime/containers"

-- `verifyInternalSecret`, with the secret of the environment.
unfoldable pub verify_internal_secret : (String → String) → Option String → Option String → Bool
verify_internal_secret sign secret value =
    if is_missing secret || is_missing value
    then false
    else if len (get_or value "") == len (sign (get_or secret ""))
    then str_eq (get_or value "") (sign (get_or secret ""))
    else false

-- `internalAuthHeader`: nothing is an error that is thrown.
unfoldable pub internal_auth_header : (String → String) → Option String → Option String
internal_auth_header sign secret =
    if is_missing secret then none else some (sign (get_or secret ""))

-- A request: its path, the header `x-engine-secret`, and its body with its length in characters.
pub record Request : Type 0 where
  pub path : String
  pub engine_secret : Option String
  pub body_length : ℕ
  pub body : DeployBody

-- The connection is destroyed without a reply, or the status, and the job's id or the error.
pub data Reply : Type 0 where
  hung_up : Reply
  reply : ℕ → String → Reply

-- What the queue does with a body.
pub data Added : Type 0 where
  job : String → Added
  not_added : String → Added

-- The reply, and the bodies that were put in the queue.
pub record Served : Type 0 where
  pub response : Reply
  pub jobs : List DeployBody

abbrev pub queue_added : DeployBody → Added → Served
queue_added body (job id) = record { response = reply 202 id; jobs = body ∷ [] }
queue_added body (not_added error) = record { response = reply 500 error; jobs = [] }

abbrev pub queue_valid : (DeployBody → Added) → DeployBody → Option String → Served
queue_valid add body none = queue_added body (add body)
queue_valid add body (some error) = record { response = reply 400 error; jobs = [] }

abbrev pub max_body : ℕ
max_body = 1_000_000

-- `readBody`, which destroys a request whose body is longer, and then the checks and the queue.
abbrev pub read_body : (DeployBody → Added) → Bool → Request → Served
read_body add rollback r =
    if ltb max_body r.body_length
    then record { response = hung_up; jobs = [] }
    else queue_valid add r.body (validate rollback r.body)

abbrev pub deploy_path : String
deploy_path = "/api/v1/runtime/deploy"

abbrev pub rollback_path : String
rollback_path = "/api/v1/runtime/rollback"

-- `main` for a POST of the two paths, and the refusal of a caller without the secret on every
-- protected path. A path that is neither is answered elsewhere.
unfoldable pub serve :
    (String → String) → (DeployBody → Added) → Option String → Request → Option Served
unfolding validate verify_internal_secret
serve sign add secret r =
    if is_protected r.path && not (verify_internal_secret sign secret r.engine_secret)
    then some (record { response = reply 401 "Unauthorized engine request"; jobs = [] })
    else if str_eq r.path deploy_path
    then some (read_body add false r)
    else if str_eq r.path rollback_path
    then some (read_body add true r)
    else none
