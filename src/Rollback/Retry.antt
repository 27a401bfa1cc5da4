-- ===== src/Rollback/Retry.antt =====
-- A rollback of apps/api/src/deployment-history.ts that is asked for again after a failure.
use hostingservices.Common.{String, true, Option, some, ◌≡◌, ◌≢◌, refl, ap, ◌∙◌, arith, eq_iff}
use hostingservices.Database.{
  Status, is_ready, failed, rolling_back, Runtime, Deployment, Table, set_status, update_deployment,
  list_deployments, find_id,
}
use hostingservices.Database.Rows.{find_id_sound, list_deployments-update, find_id-update}
use hostingservices.Rollback.{
  EngineRequest, Answer, broken, refused, request_of, rolling_of, queue_to, refuse, runtime_of,
  queue_rollback, rollback_to, guard_rollback_to, guard_rows,
}
use hostingservices.Rollback.Acceptance.{
  IsAllowed, guard_rollback_to_of, rollback_to-queue, rollback_to-refuse,
}

-- A row is found in a table that was updated, as the update of the row.
find-update :
    (id j : String) (s : Status) (r : Option Runtime) (t : Table) {d : Deployment}
    → find_id j (list_deployments t) ≡ some d
    → find_id j (list_deployments (update_deployment id s r t)) ≡ some (set_status id s r d)
find-update id j s r t h =
    rw (list_deployments-update id s r t) (find_id-update id j s r (list_deployments t) h)

failed_status :
    (id : String) (r : Option Runtime) (d : Deployment)
    → d.id ≡ id
    → (set_status id failed r d).status ≡ failed
failed_status id r d h = ground (arith, eq_iff d.id id)

set_status-id :
    (id : String) (s : Status) (r : Option Runtime) (d : Deployment)
    → (set_status id s r d).id ≡ d.id
set_status-id id s r d = ground arith

guard_rows-unready :
    (c d : Deployment)
    → c.status ≡ failed
    → guard_rows c d ≡ refuse 409 "Only a healthy running deployment can be rolled back"
unfolding guard_rows is_ready
guard_rows-unready c d h = rw h refl

guard_unready :
    (id j : String) (t : Table) {c d : Deployment}
    → j ≢ ""
    → j ≢ id
    → find_id id (list_deployments t) ≡ some c
    → find_id j (list_deployments t) ≡ some d
    → c.status ≡ failed
    → guard_rollback_to true id (some j) t
      ≡ refuse 409 "Only a healthy running deployment can be rolled back"
unfolding guard_rollback_to
guard_unready id j t {c} {d} n m hc hd s =
    ground (arith, eq_iff j "", eq_iff j id, hc, hd, guard_rows-unready c d s)

-- After a rollback that the engine did not take, the same request is refused, whatever the engine
-- would answer now: the row of the deployment, which was healthy, has the status `failed`.
pub rollback_to_again :
    (engine later : EngineRequest → Answer) (id : String) (t : Table) (c d : Deployment)
    (error : String)
    → IsAllowed true id (some d.id) t c d
    → d.id ≢ ""
    → engine (request_of id c d) ≡ broken error
    → (rollback_to later true id
        (some d.id)
        (rollback_to engine true id (some d.id) t).table).response
      ≡ refused 409 "Only a healthy running deployment can be rolled back"
unfolding queue_to queue_rollback
rollback_to_again engine later id t c d error a n h =
    let r = record (runtime_of c) { rollback_error = some error } in
    let q = rolling_of c d in
    let one = update_deployment id rolling_back (some q) t in
    let two = update_deployment id failed (some r) one in
    let g = guard_rollback_to_of true id (some d.id) t a n in
    let first : (rollback_to engine true id (some d.id) t).table ≡ two =
      rw (rollback_to-queue engine true id (some d.id) t g, queue_rollback, h) refl in
    let c' = set_status id rolling_back (some q) c in
    let found_c =
      find-update id id failed (some r) one
        (find-update id id rolling_back (some q) t a.is_current) in
    let found_d =
      find-update id d.id failed (some r) one
        (find-update id d.id rolling_back (some q) t a.is_found) in
    let named =
      set_status-id id rolling_back (some q) c
      ∙ (find_id_sound id (list_deployments t) a.is_current).0 in
    rw first (
      ap (λ x. x.response)
        (rollback_to-refuse later true id (some d.id) two (
          guard_unready id d.id two n a.other found_c found_d
            (failed_status id (some r) c' named))))
