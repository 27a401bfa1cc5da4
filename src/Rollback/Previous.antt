-- ===== src/Rollback/Previous.antt =====
-- The row that the handler `rollback` of apps/api/src/auth-routes.ts returns to, and what
-- `rollbackDeployment` of apps/api/src/rollback.ts leaves.
use hostingservices.Common.{
  ℕ, String, Bool, true, Option, none, some, [], ◌≡◌, ◌≢◌, inl, inr, ap, ◌∙◌, sym, arith, find,
  find_sound, eq_iff, In, subst, Option-cases, Bool-cases,
}
use hostingservices.Database.{ready, is_ready, Deployment, Table, list_deployments, find_id}
use hostingservices.Database.Rows.{In-list_deployments}
use hostingservices.Rollback.{
  EngineRequest, Answer, accepted, refused, refuse, pass, run_guarded, runtime_of, engine_request,
  ◌+++◌,
}
use hostingservices.Rollback.Earlier.{
  is_previous, guard_previous, guard_rollback, queue_back, rollback,
}
use hostingservices.Rollback.Requests.{IsQueued, Guarded-cases, queue-accepted}
use hostingservices.Rollback.Acceptance.{ready_of}

-- `previous` is a healthy row of the project of `current`, which is healthy too, with another id
-- and another image.
pub record IsPrevious (t : Table) (current previous : Deployment) : Type 0 where
  pub row : In previous t
  pub was_ready : current.status ≡ ready
  pub healthy : previous.status ≡ ready
  pub project : previous.project_id ≡ current.project_id
  pub other : previous.id ≢ current.id
  pub image : previous.image ≢ current.image

is_previous-parts :
    (c d : Deployment)
    → is_previous c d ≡ true
    → (d.project_id ≡ c.project_id) × (d.status ≡ ready) × (d.id ≢ c.id) × (d.image ≢ c.image)
unfolding is_previous is_ready
is_previous-parts c d h =
    let a = ready_of d.status in
    (
      (eq_iff d.project_id c.project_id).0 (ground arith),
      a (ground arith),
      λ e. ground (arith, eq_iff d.id c.id),
      λ e. ground (arith, eq_iff d.image c.image),
    )

guard_previous-pass :
    (o : Option Deployment) (t : Table) {c d : Deployment}
    → guard_previous o (list_deployments t) ≡ pass c d
    → (o ≡ some c) × IsPrevious t c d
guard_previous-pass none t h = cc
guard_previous-pass (some x) t {c} {d} h =
    elim (Option-cases (find (is_previous x) (list_deployments t))) [
      | inl f ↦ ground (arith, f)
      | inr (y, f) ↦
          let s = find_sound (is_previous x) (list_deployments t) f in
          let p = is_previous-parts x y s.0 in
          let r : is_ready x.status ≡ true = ground (arith, f) in
          let e : (x ≡ c) × (y ≡ d) = ground (arith, f) in
          let i : IsPrevious t x y = record {
            row = (In-list_deployments t y).0 s.1;
            was_ready = ready_of x.status r;
            healthy = p.1;
            project = p.0;
            other = p.2;
            image = p.3;
          } in
          (ap some e.0, subst (λ a. IsPrevious t a d) e.0 (subst (λ b. IsPrevious t x b) e.1 i))
    ]

guard_rollback-pass :
    (u : Bool) (id : String) (t : Table) {c d : Deployment}
    → guard_rollback u id t ≡ pass c d
    → (u ≡ true) × (find_id id (list_deployments t) ≡ some c) × IsPrevious t c d
unfolding guard_rollback
guard_rollback-pass u id t h = elim (Bool-cases u) [
  | inl e ↦
      let p = guard_previous-pass (find_id id (list_deployments t)) t (ground (arith, e)) in
      (e, p.0, p.1)
  | inr e ↦ ground arith
]

module _ (engine : EngineRequest → Answer) (u : Bool) (id : String) (t : Table) where
  rollback-queue :
      {c d : Deployment}
      → guard_rollback u id t ≡ pass c d
      → rollback engine u id t ≡ queue_back engine id t c d
  unfolding rollback
  rollback-queue g = ap (λ x. run_guarded x t (queue_back engine id t)) g

  rollback-refuse :
      {code : ℕ} {e : String}
      → guard_rollback u id t ≡ refuse code e
      → rollback engine u id t ≡ record { table = t; sent = []; response = refused code e }
  unfolding rollback
  rollback-refuse g = ap (λ x. run_guarded x t (queue_back engine id t)) g

  -- A rollback to the previous version is accepted only for a caller that is signed in and a row
  -- that the listing has under the id. It goes to a healthy row of the same project, with another
  -- id and another image, and that row's id and image are what the caller is told; the engine was
  -- called once and gave the job.
  pub rollback-accepted :
      (i tid image job : String)
      → (rollback engine u id t).response ≡ accepted i tid image job
      → (c : Deployment) × (d : Deployment) × (u ≡ true)
        × (find_id id (list_deployments t) ≡ some c)
        × IsPrevious t c d
        × (i ≡ id)
        × (tid ≡ d.id)
        × (image ≡ d.image)
        × IsQueued engine
            (engine_request ("rollback:" +++ id) id d.image (runtime_of c))
            id
            (record (runtime_of c) { rollback_from = some d.id; previous_image = some d.image })
            t
            job
            (rollback engine u id t)
  unfolding queue_back
  rollback-accepted i tid image job h = elim (Guarded-cases (guard_rollback u id t)) [
    | inl (c, f, g) ↦ let e = ap (λ x. x.response) (sym (rollback-refuse g)) ∙ h in cc
    | inr (c, d, g) ↦
        let p = guard_rollback-pass u id t g in
        let r = runtime_of c in
        let q =
          queue-accepted engine (engine_request ("rollback:" +++ id) id d.image r) id d r
            (record r { rollback_from = some d.id; previous_image = some d.image }) t
            (ap (λ x. x.response) (sym (rollback-queue g)) ∙ h) in
        (c, d, p.0, p.1, p.2, q.0, q.1, q.2, rw (rollback-queue g) q.3)
  ]
