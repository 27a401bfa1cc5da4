-- ===== src/Database.antt =====
-- The table of deployments of the API (apps/api/src/db.ts): the rows, their listing and their
-- update. The JSON of the column `runtime` is a record of the fields that the code reads and
-- writes; `update` writes it only if it is given, as COALESCE does.
pub mod Rows
use hostingservices.Common.{
  ℕ, String, Bool, Option, none, some, List, [], ◌∷◌, leb, find, keep, map, str_eq, sort_by,
  if◌then◌else◌,
}

-- The values of the column `status`.
pub data Status : Type 0 where
  queued building starting ready failed rolling_back : Status

unfoldable pub is_ready : Status → Bool
is_ready ready = Bool.true
is_ready _ = Bool.false

pub record Runtime : Type 0 where
  pub name : Option String
  pub service : Option String
  pub service_name : Option String
  pub container_port : Option ℕ
  pub host_port : Option ℕ
  pub health_mode : Option String
  pub is_public : Option Bool
  pub health_path : Option String
  pub domain : Option String
  pub env : Option (List (String × String))
  pub rollback_from : Option String
  pub previous_image : Option String
  pub rollback_target : Option String
  pub rollback_error : Option String

pub record Deployment : Type 0 where
  pub id : String
  pub project_id : String
  pub status : Status
  pub image : String
  pub repo : Option String
  pub runtime : Option Runtime
  pub created_at : ℕ

abbrev pub Table : Type 0
Table = List Deployment

-- `ORDER BY d.created_at DESC`.
abbrev pub is_newer : Deployment → Deployment → Bool
is_newer a b = leb b.created_at a.created_at

unfoldable pub list_deployments : Table → List Deployment
list_deployments table = sort_by is_newer table

abbrev pub or_runtime : Option Runtime → Option Runtime → Option Runtime
or_runtime none old = old
or_runtime (some r) old = some r

abbrev pub set_status : String → Status → Option Runtime → Deployment → Deployment
set_status id status runtime d =
    if str_eq d.id id
    then record d { status = status; runtime = or_runtime runtime d.runtime }
    else d

unfoldable pub update_deployment : String → Status → Option Runtime → Table → Table
update_deployment id status runtime table = map (set_status id status runtime) table

-- `deployments.find(item => item.id === id)`.
abbrev pub find_id : String → List Deployment → Option Deployment
find_id id = find (λ (d : Deployment). str_eq d.id id)
