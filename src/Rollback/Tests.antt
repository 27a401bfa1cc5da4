-- ===== src/Rollback/Tests.antt =====
-- Rollbacks on a table of three rows, and the theorems at these inputs.
use hostingservices.Common.{
  get_or, ap, map, sym, ◌∙◌, String, true, some, [], ◌∷◌, ◌≡◌, inl, inr, refl, str_ne, sort_by,
}
use hostingservices.Database.{Runtime, failed, Deployment, list_deployments, find_id, is_ready}
use hostingservices.Rollback.{
  EngineRequest, Answer, answered, broken, accepted, refused, queue_to, runtime_of, engine_request,
  guard_rows, guard_rollback_to, queue_rollback, rollback_to, ◌+++◌,
}
use hostingservices.Rollback.Earlier.{queue_back, guard_rollback, rollback, is_previous}
use hostingservices.Rollback.Listing.{service_of, version_of}
use hostingservices.Rollback.Requests.{IsIdle, HasFailed, IsQueued}
use hostingservices.Rollback.Asked.{AsksFor, IsRolling, rolled}
use hostingservices.Rollback.Acceptance.{
  IsAllowed, rollback_to-refused, rollback_to-accepted, rollback_to-failed,
}
use hostingservices.Rollback.Retry.{rollback_to_again}
use hostingservices.Rollback.Versions.{versions-IsAllowed}
use hostingservices.Rollback.Sample.{row, old_row, new_row, table, listed, new_row_found, keyed}
use hostingservices.Rollback.Previous.{IsPrevious, rollback-accepted}

abbrev d1 : String
d1 = "d1"

abbrev d2 : String
d2 = "d2"

abbrev image1 : String
image1 = "image:1"

abbrev failed_row : Deployment
failed_row = row "d3" failed "image:3" 3

abbrev engine_up : EngineRequest → Answer
engine_up q = answered "job-1"

abbrev engine_down : EngineRequest → Answer
engine_down q = broken "Error: down"

is_accepted :
    (rollback_to engine_up true "d2" (some "d1") table).response
    ≡ accepted "d2" "d1" "image:1" "job-1"
unfolding rollback_to guard_rollback_to list_deployments sort_by guard_rows is_ready queue_to
    queue_rollback
is_accepted = refl

unhealthy_target :
    (rollback_to engine_up true "d2" (some "d3") (failed_row ∷ table)).response
    ≡ refused 409 "Target deployment is not healthy"
unfolding rollback_to guard_rollback_to list_deployments sort_by guard_rows is_ready
unhealthy_target = refl

previous_is_accepted :
    (rollback engine_up true "d2" table).response ≡ accepted "d2" "d1" "image:1" "job-1"
unfolding rollback guard_rollback list_deployments sort_by is_previous is_ready queue_back
    queue_rollback
previous_is_accepted = refl

old_row_found : find_id "d1" (list_deployments table) ≡ some old_row
unfolding list_deployments sort_by
old_row_found = refl

allowed : IsAllowed true "d2" (some "d1") table new_row old_row
allowed = record {
  user = refl;
  names = refl;
  other = str_ne "d1" "d2" refl;
  is_current = new_row_found;
  is_found = old_row_found;
  is_target = record {
    was_ready = refl;
    is_healthy = refl;
    project = refl;
    repo = λ a b p q m n. ap (λ o. get_or o "") (sym p ∙ q);
    image = str_ne "image:1" "" refl;
  };
}

rollback_to-refused_case :
    IsIdle (failed_row ∷ table) (rollback_to engine_up true "d2" (some "d3") (failed_row ∷ table))
rollback_to-refused_case =
    rollback_to-refused engine_up true "d2" (some "d3") (failed_row ∷ table) 409
      "Target deployment is not healthy" unhealthy_target

rollback_to-accepted_example :
    (c : Deployment) × (d : Deployment) × IsAllowed true "d2" (some "d1") table c d
    × (d2 ≡ d2)
    × (d1 ≡ d.id)
    × (image1 ≡ d.image)
    × (q : EngineRequest) × AsksFor "d2" c d q
    × (engine_up q ≡ answered "job-1")
    × ((rollback_to engine_up true "d2" (some "d1") table).sent ≡ q ∷ [])
    × (r : Runtime) × IsRolling c d r
    × ((rollback_to engine_up true "d2" (some "d1") table).table ≡ map (rolled "d2" r) table)
rollback_to-accepted_example =
    rollback_to-accepted engine_up true "d2" (some "d1") table "d2" "d1" "image:1" "job-1"
      is_accepted

rollback_to-failed_case :
    HasFailed "d2"
      (runtime_of new_row)
      "Error: down"
      table
      (rollback_to engine_down true "d2" (some "d1") table)
rollback_to-failed_case =
    rollback_to-failed engine_down true "d2" (some "d1") table new_row old_row "Error: down" allowed
      (str_ne "d1" "" refl) refl

rollback_to_again_case :
    (rollback_to engine_up true "d2"
      (some "d1")
      (rollback_to engine_down true "d2" (some "d1") table).table).response
    ≡ refused 409 "Only a healthy running deployment can be rolled back"
rollback_to_again_case =
    rollback_to_again engine_down engine_up "d2" table new_row old_row "Error: down" allowed
      (str_ne "d1" "" refl) refl

versions-IsAllowed_case :
    (d : Deployment) × (d.id ≡ "d1") × IsAllowed true "d2" (some "d1") table new_row d
unfolding service_of
versions-IsAllowed_case =
    versions-IsAllowed true "d2" "d2" table
      (version_of new_row new_row ∷ version_of new_row old_row ∷ []) (version_of new_row old_row)
      new_row listed keyed new_row_found refl (inr (inl refl)) refl (str_ne "image:1" "" refl)

rollback-accepted_case :
    (c : Deployment) × (d : Deployment) × (true ≡ true)
    × (find_id "d2" (list_deployments table) ≡ some c)
    × IsPrevious table c d
    × (d2 ≡ d2)
    × (d1 ≡ d.id)
    × (image1 ≡ d.image)
    × IsQueued engine_up
        (engine_request ("rollback:" +++ "d2") "d2" d.image (runtime_of c))
        "d2"
        (record (runtime_of c) { rollback_from = some d.id; previous_image = some d.image })
        table
        "job-1"
        (rollback engine_up true "d2" table)
rollback-accepted_case =
    rollback-accepted engine_up true "d2" table "d2" "d1" "image:1" "job-1" previous_is_accepted
