-- ===== src/Rollback/Asked.antt =====
-- What the rollback of apps/api/src/deployment-history.ts asks of the engine, and the row it leaves.
use Prim.Native.String.{◌++◌ as ◌+++◌, slice}
use hostingservices.Common.{
  map, if◌then◌else◌, str_eq, String, Option, none, some, ◌≡◌, refl, ap, get_or,
}
use hostingservices.Database.{rolling_back, Runtime, Deployment, Table, update_deployment}
use hostingservices.Rollback.{
  engine_request, runtime_name, no_runtime, request_of, rolling_of, EngineRequest,
}

-- The call of the engine for a rollback of `current` to `target`: the target's image, and the
-- rest from the runtime of the current row, where there is one.
pub record AsksFor (id : String) (current target : Deployment) (q : EngineRequest) : Type 0 where
  pub key : q.idempotency_key ≡ "rollback:" +++ (id +++ (":" +++ target.id))
  pub deployment : q.deployment_id ≡ id
  pub image : q.previous_image ≡ target.image
  pub name : (r : Runtime) → current.runtime ≡ some r → (n : String) → r.name ≡ some n → q.name ≡ n
  pub default_name :
      ((r : Runtime) → current.runtime ≡ some r → r.name ≡ none)
      → q.name ≡ "nexus-" +++ slice id 0 8
  pub settings :
      (r : Runtime)
      → current.runtime ≡ some r
      → (q.container_port ≡ r.container_port)
        × (q.host_port ≡ r.host_port)
        × (q.health_mode ≡ r.health_mode)
        × (q.is_public ≡ r.is_public)
        × (q.health_path ≡ r.health_path)
        × (q.domain ≡ r.domain)
        × (q.env ≡ r.env)

-- A runtime that has no name, or none at all.
nameless :
    (o : Option Runtime)
    → ((r : Runtime) → o ≡ some r → r.name ≡ none)
    → (get_or o no_runtime).name ≡ none
nameless none k = refl
nameless (some r) k = k r refl

pub request_of-AsksFor :
    (id : String) (current target : Deployment)
    → AsksFor id current target (request_of id current target)
unfolding request_of engine_request runtime_name
request_of-AsksFor id current target = record {
  key = refl;
  deployment = refl;
  image = refl;
  name = λ r h n k. rw (h, k) refl;
  default_name = λ k. ap (λ n. get_or n ("nexus-" +++ slice id 0 8)) (nameless current.runtime k);
  settings = λ r h. rw h (refl, refl, refl, refl, refl, refl, refl);
}

-- The runtime of a row that is rolled back: that of the current row, which names the target and
-- its image.
pub record IsRolling (current target : Deployment) (r : Runtime) : Type 0 where
  pub rollback_from : r.rollback_from ≡ some target.id
  pub previous_image : r.previous_image ≡ some target.image
  pub rollback_target : r.rollback_target ≡ some target.id
  pub settings :
      (old : Runtime)
      → current.runtime ≡ some old
      → (r.name ≡ old.name)
        × (r.service ≡ old.service)
        × (r.service_name ≡ old.service_name)
        × (r.container_port ≡ old.container_port)
        × (r.host_port ≡ old.host_port)
        × (r.health_mode ≡ old.health_mode)
        × (r.is_public ≡ old.is_public)
        × (r.health_path ≡ old.health_path)
        × (r.domain ≡ old.domain)
        × (r.env ≡ old.env)

pub rolling_of-IsRolling :
    (current target : Deployment) → IsRolling current target (rolling_of current target)
unfolding rolling_of
rolling_of-IsRolling current target = record {
  rollback_from = refl;
  previous_image = refl;
  rollback_target = refl;
  settings = λ old h. rw h (refl, refl, refl, refl, refl, refl, refl, refl, refl, refl);
}

-- The row after the rollback of `id`: only rows of this id get a status and a runtime.
abbrev pub rolled : String → Runtime → Deployment → Deployment
rolled id r d = if str_eq d.id id then record d { status = rolling_back; runtime = some r } else d

pub update-rolled :
    (id : String) (r : Runtime) (t : Table)
    → update_deployment id rolling_back (some r) t ≡ map (rolled id r) t
unfolding update_deployment
update-rolled id r t = refl
