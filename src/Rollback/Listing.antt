-- ===== src/Rollback/Listing.antt =====
-- The versions that a deployment is listed with: the handler `versions` of
-- apps/api/src/deployment-history.ts.
use hostingservices.Common.{
  ℕ, String, Bool, Option, none, some, List, ◌&&◌, not, keep, map, str_eq, if◌then◌else◌,
}
use hostingservices.Database.{
  Status, is_ready, Runtime, Deployment, Table, list_deployments, find_id,
}
use hostingservices.Rollback.{clashes}

-- `a ?? b` on values that may be absent.
abbrev pub or_else : Option String → Option String → Option String
or_else none b = b
or_else (some a) b = some a

abbrev pub service_in : Option Runtime → Option String
service_in none = none
service_in (some r) = or_else r.service r.service_name

unfoldable pub service_of : Deployment → Option String
service_of d = service_in d.runtime

pub record Version : Type 0 where
  pub id : String
  pub status : Status
  pub image : String
  pub repo : Option String
  pub created_at : ℕ
  pub service : Option String
  pub runtime : Option Runtime
  pub current : Bool

abbrev pub version_of : Deployment → Deployment → Version
version_of current d = record {
  id = d.id;
  status = d.status;
  image = d.image;
  repo = d.repo;
  created_at = d.created_at;
  service = service_of d;
  runtime = d.runtime;
  current = str_eq d.id current.id;
}

pub data VersionsResponse : Type 0 where
  found : String → List Version → VersionsResponse
  not_found : ℕ → String → VersionsResponse

-- The three filters; the texts that are compared are skipped when one is absent or empty.
unfoldable pub versions_of : Deployment → List Deployment → List Version
versions_of current deployments = map (version_of current) (
    keep (λ (d : Deployment). not (clashes (service_of current) (service_of d)))
      (keep (λ (d : Deployment). not (clashes current.repo d.repo))
        (keep (λ (d : Deployment). str_eq d.project_id current.project_id && is_ready d.status)
          deployments)))

abbrev pub versions_found : String → Option Deployment → List Deployment → VersionsResponse
versions_found id none deployments = not_found 404 "Deployment not found"
versions_found id (some current) deployments = found id (versions_of current deployments)

-- `GET /api/v1/deployments/:id/versions`.
unfoldable pub versions : Bool → String → Table → VersionsResponse
versions is_user id table =
    let deployments = list_deployments table in
    if not is_user
    then not_found 401 "Authentication required"
    else versions_found id (find_id id deployments) deployments
