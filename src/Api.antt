-- ===== src/Api.antt =====
-- The tables of projects, domains, deployments and webhook deliveries of the API with their
-- queries in apps/api/src/db.ts. An insertion that a constraint of the table refuses throws, which
-- is `none`. Names of domains are lists of code units, since the code takes them apart.
pub mod Domains
pub mod Bodies
pub mod Calls
pub mod Deploying
pub mod Webhooks
pub mod Requests
pub mod Unchanged
pub mod Registry
pub mod Rows
pub mod Refinement
pub mod Proofs
pub mod Schema
pub mod Forwarding
pub mod Pipelines
pub mod Deliveries
pub mod Races
mod Tests
use hostingservices.Common.{
  ℕ, String, Bool, true, false, Option, none, some, List, [], ◌∷◌, ◌&&◌, ◌||◌, any, find, map,
  str_eq, if◌then◌else◌,
}
use hostingservices.Common.Texts.{Text, text_eq}
use hostingservices.Database.{Status, queued}
use hostingservices.EngineApi.{Number}

pub record Project : Type 0 where
  pub id : String
  pub name : String
  pub repo : Option String
  pub created_at : ℕ

-- A row of `domains`; `is_verified` tells whether `status` is `verified`, and not `pending`.
pub record Domain : Type 0 where
  pub id : String
  pub project_id : String
  pub domain : Text
  pub verification_token : String
  pub is_verified : Bool
  pub created_at : ℕ

-- What the API writes to the column `runtime`: where the deployment is placed and how it is
-- released, with the engine's answer or the error, if there is one.
pub record Placement : Type 0 where
  pub node_name : String
  pub region : String
  pub strategy : String
  pub canary_steps : Option (List Number)
  pub engine_answer : Option String
  pub error : Option String

pub record Deployment : Type 0 where
  pub id : String
  pub project_id : String
  pub status : Status
  pub image : String
  pub repo : Option String
  pub runtime : Option Placement
  pub created_at : ℕ

pub record Store : Type 0 where
  pub projects : List Project
  pub domains : List Domain
  pub deployments : List Deployment
  pub deliveries : List String

abbrev pub has_project_id : String → Project → Bool
has_project_id id p = str_eq p.id id

unfoldable pub project_exists : String → Store → Bool
project_exists id s = any (has_project_id id) s.projects

-- The insertion is refused if the id is taken.
unfoldable pub create_project : Project → Store → Option Store
unfolding project_exists
create_project p s =
    if project_exists p.id s then none else some (record s { projects = p ∷ s.projects })

abbrev is_repo : String → Option String → Bool
is_repo repo none = false
is_repo repo (some r) = str_eq r repo

unfoldable pub find_project_by_repo : String → Store → Option Project
find_project_by_repo repo s = find (λ (p : Project). is_repo repo p.repo) s.projects

-- The name or the id of a row is taken.
abbrev pub is_taken : Domain → Domain → Bool
is_taken d e = str_eq e.id d.id || text_eq e.domain d.domain

-- The insertion is refused if the id or the name is taken, or if there is no such project.
unfoldable pub create_domain : Domain → Store → Option Store
unfolding project_exists
create_domain d s =
    if any (is_taken d) s.domains
    then none
    else if project_exists d.project_id s
    then some (record s { domains = d ∷ s.domains })
    else none

abbrev pub has_domain_id : String → Domain → Bool
has_domain_id id d = str_eq d.id id

unfoldable pub get_domain : String → Store → Option Domain
get_domain id s = find (has_domain_id id) s.domains

abbrev pub is_verified_of : String → Text → Domain → Bool
is_verified_of project_id name d =
    str_eq d.project_id project_id && text_eq d.domain name && d.is_verified

unfoldable pub get_verified_domain : String → Text → Store → Option Domain
get_verified_domain project_id name s = find (is_verified_of project_id name) s.domains

abbrev pub verify_row : String → Domain → Domain
verify_row id d = if str_eq d.id id then record d { is_verified = true } else d

unfoldable pub mark_domain_verified : String → Store → Store
mark_domain_verified id s = record s { domains = map (verify_row id) s.domains }

abbrev pub has_id : String → Deployment → Bool
has_id id d = str_eq d.id id

-- The insertion is refused if the id is taken or if there is no such project.
unfoldable pub create_deployment : Deployment → Store → Option Store
unfolding project_exists
create_deployment d s =
    if any (has_id d.id) s.deployments
    then none
    else if project_exists d.project_id s
    then some (record s { deployments = d ∷ s.deployments })
    else none

-- `COALESCE` keeps the old value if no new one is given.
abbrev pub coalesce {ℓ} : {A : Type ℓ} → Option A → Option A → Option A
coalesce none old = old
coalesce (some a) old = some a

abbrev pub set_row : String → Status → Option Placement → Deployment → Deployment
set_row id status runtime d =
    if str_eq d.id id then record d { status = status; runtime = coalesce runtime d.runtime } else d

unfoldable pub update_deployment : String → Status → Option Placement → Store → Store
update_deployment id status runtime s = record s {
  deployments = map (set_row id status runtime) s.deployments;
}

-- A delivery that was claimed before is not claimed again, which is `none`.
unfoldable pub claim_github_delivery : String → Store → Option Store
claim_github_delivery id s =
    if any (λ d. str_eq d id) s.deliveries
    then none
    else some (record s { deliveries = id ∷ s.deliveries })
