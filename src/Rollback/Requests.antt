-- ===== src/Rollback/Requests.antt =====
-- What a request to roll back does to the table of deployments and to the engine: the handlers of
-- apps/api/src/deployment-history.ts and apps/api/src/auth-routes.ts.
use hostingservices.Common.{
  ◌⊎◌, ◌≢◌, ℕ, String, some, [], ◌∷◌, ◌≡◌, refl, ◌∙◌, sym, arith, In, subst, inl, inr,
}
use hostingservices.Database.{
  Status, failed, rolling_back, Runtime, Deployment, Table, set_status, update_deployment,
}
use hostingservices.Database.Rows.{In-update}
use hostingservices.Rollback.{
  EngineRequest, Answer, answered, broken, accepted, refused, not_queued, Handled, Guarded, refuse,
  pass, queue_rollback,
}

-- The call of the engine came to nothing: one call was made; the rows of the id have failed, and
-- their runtime is the one given with the error; every other row is as it was.
pub record HasFailed (id : String) (runtime : Runtime) (error : String) (t : Table) (h : Handled)
    : Type 0 where
  pub response : h.response ≡ not_queued error
  pub rows :
      (d : Deployment)
      → In d t
      → In (set_status id failed (some (record runtime { rollback_error = some error })) d) h.table

-- Nothing is done.
abbrev pub IsIdle : Table → Handled → Type 0
IsIdle t h = (h.table ≡ t) × (h.sent ≡ [])

set_status-twice :
    (id : String) (s v : Status) (q r : Runtime) (d : Deployment)
    → set_status id v (some r) (set_status id s (some q) d) ≡ set_status id v (some r) d
set_status-twice id s v q r d = ground arith

pub queue-fails :
    (engine : EngineRequest → Answer) (request : EngineRequest) (id : String) (target : Deployment)
    (runtime rolling : Runtime) (t : Table) {error : String}
    → engine request ≡ broken error
    → HasFailed id runtime error t (queue_rollback engine request id target runtime rolling t)
unfolding queue_rollback
queue-fails engine request id target runtime rolling t {error} h =
    let r = record runtime { rollback_error = some error } in
    rw (queue_rollback, h)
      (record {
        response = refl;
        rows = λ d i.
            subst
              (λ x. In x (
                update_deployment id failed (some r)
                  (update_deployment id rolling_back (some rolling) t)))
              (set_status-twice id rolling_back failed rolling r d)
              (In-update id failed (some r) (update_deployment id rolling_back (some rolling) t)
                (set_status id rolling_back (some rolling) d)
                (In-update id rolling_back (some rolling) t d i));
      })

pub Guarded-cases :
    (g : Guarded)
    → ((code : ℕ) × (e : String) × (g ≡ refuse code e))
      ⊎ ((c : Deployment) × (t : Deployment) × (g ≡ pass c t))
Guarded-cases (refuse code e) = inl (code, e, refl)
Guarded-cases (pass c t) = inr (c, t, refl)

Answer-cases :
    (a : Answer) → ((job : String) × (a ≡ answered job)) ⊎ ((e : String) × (a ≡ broken e))
Answer-cases (answered job) = inl (job, refl)
Answer-cases (broken e) = inr (e, refl)

-- The engine gave the job for its one call, and the rows of the id are `rolling_back`.
pub record IsQueued (engine : EngineRequest → Answer) (request : EngineRequest) (id : String)
    (rolling : Runtime) (t : Table) (job : String) (h : Handled) : Type 0 where
  pub sent : h.sent ≡ request ∷ []
  pub answer : engine request ≡ answered job
  pub table : h.table ≡ update_deployment id rolling_back (some rolling) t

module _ (engine : EngineRequest → Answer) (request : EngineRequest) (id : String)
    (target : Deployment) (runtime rolling : Runtime) (t : Table) where
  abbrev queued : Handled
  queued = queue_rollback engine request id target runtime rolling t

  pub queue-passes : (code : ℕ) (e : String) → queued.response ≢ refused code e
  unfolding queue_rollback
  queue-passes code e h = elim (Answer-cases (engine request)) [
    | inl (job, a) ↦ ground (arith, a)
    | inr (x, a) ↦ ground (arith, a)
  ]

  pub queue-accepted :
      {i tid image job : String}
      → queued.response ≡ accepted i tid image job
      → (i ≡ id)
        × (tid ≡ target.id)
        × (image ≡ target.image)
        × IsQueued engine request id rolling t job queued
  unfolding queue_rollback
  queue-accepted {i} {tid} {image} {job} h = elim (Answer-cases (engine request)) [
    | inl (j, a) ↦
        let r : queued.response ≡ accepted id target.id target.image j =
          rw (queue_rollback, a) refl in
        let e = sym h ∙ r in
        let answer : engine request ≡ answered job = a ∙ (cc) in
        let table : queued.table ≡ update_deployment id rolling_back (some rolling) t =
          rw (queue_rollback, a) refl in
        let sent : queued.sent ≡ request ∷ [] = rw (queue_rollback, a) refl in
        (cc, cc, cc, record { sent = sent; answer = answer; table = table })
    | inr (x, a) ↦ ground (arith, a)
  ]
