-- ===== src/Deploy.antt =====
-- The deployment of one container (apps/engine/src/deploy.ts, with the traffic switch of
-- apps/engine/src/router.ts as an effect). The Docker daemon and the router's files are the state;
-- which calls fail, and what Docker answers, is given by a record for the deployment in question.
-- An exception is a `throw` that keeps the state at which it was raised.
pub mod Binds
pub mod BindLaws
pub mod Daemon
pub mod Failure
pub mod HandOver
pub mod Success
mod Tests
use Prim.Native.String
use hostingservices.Common.{
  ℕ, ◌+◌, String, Bool, true, false, Option, none, some, List, [], ◌∷◌, ◌++◌, not, ◌&&◌, ltb, ◌==◌,
  str_eq, get_or, find, keep, is_some, if◌then◌else◌, insert,
}
use hostingservices.Health.{
  HealthMode, Attempt, Check, Result, is_healthy, failed_with, timed_out, with_defaults, includes,
  wait_for_healthy_container,
}
use hostingservices.Deploy.Binds.{Text, safe_volume_binds}
use hostingservices.Deploy.Daemon.{
  Container, World, Error, Outcome, ok, throw, Effect, ◌>>=◌, ◌>>◌, pure, raise, attempt, on_error,
  list_calls, create_calls, start_calls, bind_error, unhealthy, switch_calls, rename_calls,
  network_calls, inspect_calls, Faults, remove_container, create_container, start_container,
  rename_container, switch_traffic,
}

pub record RuntimeSpec : Type 0 where
  pub name : String
  pub image : String
  pub container_port : Option ℕ
  pub host_port : Option ℕ
  pub health_path : Option String
  pub health_mode : Option HealthMode
  pub is_public : Option Bool
  pub volume_binds : List Text

-- The settings of the environment: NODE_ENV, ALLOW_RUNTIME_HOST_BINDS, TRAEFIK_ENABLED and
-- REQUIRE_HEALTHCHECK, each as the comparison that the code makes.
pub record Settings : Type 0 where
  pub production : Bool
  pub allow_host_binds : Bool
  pub traefik_disabled : Bool
  pub healthcheck_required : Bool

-- `spec.public !== false`.
abbrev pub public_service : RuntimeSpec → Bool
public_service spec = get_or spec.is_public true

abbrev pub proxy_enabled : Settings → RuntimeSpec → Bool
proxy_enabled s spec = public_service spec && not s.traefik_disabled

-- `a ?? b`.
abbrev pub or_other : Option Container → Option Container → Option Container
or_other none b = b
or_other (some a) b = some a

-- `findActiveContainer`, on the containers that carry the labels.
unfoldable pub find_active_container : String → List Container → Option Container
find_active_container runtime containers =
    let own = keep (λ (c : Container). str_eq c.runtime runtime) containers in
    or_other (find (λ (c : Container). c.running && not (includes c.name "-candidate-")) own)
      (find (λ (c : Container). c.running) own)

-- The binding of the host port: none, or the port that is asked for.
unfoldable pub candidate_host_port : Settings → RuntimeSpec → Option Container → Option ℕ
candidate_host_port s spec previous = if proxy_enabled s spec then some 0 else elim previous [
  | some c ↦ none
  | none ↦
      if public_service spec
      then some (get_or spec.host_port (get_or spec.container_port 80))
      else none
]

-- `createAndStart`.
unfoldable pub create_and_start :
    Settings → Faults → RuntimeSpec → String → Option ℕ → Effect (Unit {0})
unfolding create_container start_container
create_and_start s f spec candidate port = do
  attempt f.networks network_calls
  elim (safe_volume_binds s.production s.allow_host_binds spec.volume_binds) [
    | some e ↦ raise (bind_error e)
    | none ↦ pure tt
  ]
  create_container f.creates (record {
    name = candidate;
    runtime = spec.name;
    image = spec.image;
    running = false;
    published = port;
  })
  start_container f.starts candidate

-- The port that `inspectHostPort` reads: 0 if none is bound.
unfoldable pub actual_port : Faults → Option ℕ → ℕ
actual_port f none = 0
actual_port f (some p) = if p == 0 then f.assigned_port else p

-- `spec.healthPath && actualCandidatePort ? … : undefined`; only whether there is a URL matters.
unfoldable pub health_url : RuntimeSpec → ℕ → Option String
health_url spec port = elim spec.health_path [
  | none ↦ none
  | some path ↦
      if not (str_eq path "") && ltb 0 port
      then some (String.◌++◌ "http://127.0.0.1" path)
      else none
]

-- The wait for the candidate throws unless it is found healthy; it never lacks a result
-- (`Health.Termination.wait_total`).
abbrev pub verdict : Option Result → Effect Check
verdict none = raise inspect_calls
verdict (some (is_healthy c)) = pure c
verdict (some r) = raise (unhealthy r)

unfoldable pub check_health : Settings → RuntimeSpec → (ℕ → Attempt) → Option String → Effect Check
check_health s spec attempts url = verdict (
    wait_for_healthy_container s.healthcheck_required (with_defaults none none url spec.health_mode)
      attempts)

pub record Deployed : Type 0 where
  pub name : String
  pub health : Check
  pub replaced : Option Container

abbrev pub remove_previous : Faults → Option Container → World → World
remove_previous f none w = w
remove_previous f (some c) w = remove_container f c.name w

-- With the proxy: it is pointed at the candidate, and the previous container is removed.
unfoldable pub via_proxy :
    Faults → RuntimeSpec → String → Option Container → Check → Effect Deployed
unfolding switch_traffic
via_proxy f spec candidate previous c = do
  switch_traffic f.switches spec.name (candidate ∷ [])
  λ w.
      ok (record { name = candidate; health = c; replaced = previous })
        (remove_previous f previous w)

-- Without it: the previous container is removed, and the candidate takes the name.
unfoldable pub via_rename :
    Faults → RuntimeSpec → String → Option Container → Check → Effect Deployed
unfolding rename_container
via_rename f spec candidate previous c = do
  λ w. ok tt (remove_previous f previous w)
  rename_container f.renames candidate spec.name
  pure (record { name = spec.name; health = c; replaced = previous })

-- The end of the `try` block.
unfoldable pub hand_over :
    Settings → Faults → RuntimeSpec → String → Option Container → Check → Effect Deployed
unfolding via_proxy via_rename
hand_over s f spec candidate previous c =
    if proxy_enabled s spec
    then via_proxy f spec candidate previous c
    else via_rename f spec candidate previous c

-- The `try` block from the health check on.
unfoldable pub checked :
    Settings → Faults → (ℕ → Attempt) → RuntimeSpec → String → Option Container → Effect Deployed
checked s f attempts spec candidate previous =
    let port = actual_port f (candidate_host_port s spec previous) in
    check_health s spec attempts (health_url spec port) >>= hand_over s f spec candidate previous

-- The `try` block once the candidate is known.
unfoldable pub with_candidate :
    Settings → Faults → (ℕ → Attempt) → RuntimeSpec → String → Option Container → Effect Deployed
with_candidate s f attempts spec candidate previous = do
  attempt f.inspects inspect_calls
  checked s f attempts spec candidate previous

-- `deployRuntime` after `findActiveContainer`. Only an error after the candidate is known removes
-- the candidate.
unfoldable pub deploy_over :
    Settings → Faults → (ℕ → Attempt) → RuntimeSpec → String → Option Container → Effect Deployed
deploy_over s f attempts spec candidate previous = do
  create_and_start s f spec candidate (candidate_host_port s spec previous)
  on_error (remove_container f candidate) (with_candidate s f attempts spec candidate previous)

unfoldable pub deploy_runtime :
    Settings → Faults → (ℕ → Attempt) → RuntimeSpec → String → Effect Deployed
deploy_runtime s f attempts spec candidate = do
  attempt f.lists list_calls
  λ w. deploy_over s f attempts spec candidate (find_active_container spec.name w.containers) w

-- `rollbackRuntime`.
unfoldable pub rollback_runtime :
    Settings → Faults → (ℕ → Attempt) → RuntimeSpec → String → String → Effect Deployed
unfolding deploy_runtime
rollback_runtime s f attempts spec previous_image candidate =
    deploy_runtime s f attempts (record spec { image = previous_image }) candidate
