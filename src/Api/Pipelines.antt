-- ===== src/Api/Pipelines.antt =====
-- How the pipeline of `POST /api/v1/deployments` in apps/api/src/index.ts ends.
use hostingservices.Common.{
  String, true, Option, none, some, List, [], ◌∷◌, ◌≡◌, ◌≢◌, ◌⊎◌, refl, sym, ap, ◌∙◌, subst, find,
  map, In, str_eq, eq_iff, arith, Bool-cases, inl, inr,
}
use hostingservices.Database.{Status, queued, building, starting, failed}
use hostingservices.Rollback.{Answer, answered, broken}
use hostingservices.Api.{
  Deployment, Placement, Store, create_deployment, update_deployment, has_id, set_row,
}
use hostingservices.Api.Bodies.{DeployRequest}
use hostingservices.Api.Calls.{
  Node, EngineCall, BuildCall, build, deploy, Setting, placed, build_call, deploy_call,
}
use hostingservices.Api.Deploying.{pipeline, start, run_source, after_build, with_answer, row_of}

-- The row of the id has the status.
abbrev pub HasStatus : String → Status → Store → Type 0
HasStatus id v s = (d : Deployment) × (find (has_id id) s.deployments ≡ some d) × (d.status ≡ v)

-- One of the calls got no answer that is ok.
abbrev pub Broke : (EngineCall → Answer) → List EngineCall → Type 0
Broke engine calls = (c : EngineCall) × (error : String) × In c calls × (engine c ≡ broken error)

find-set_row :
    (id : String) (v : Status) (p : Option Placement) (ds : List Deployment) {d : Deployment}
    → find (has_id id) ds ≡ some d
    → find (has_id id) (map (set_row id v p) ds) ≡ some (set_row id v p d)
find-set_row id v p [] h = cc
find-set_row id v p (x ∷ ds) {d} h = elim (Bool-cases (str_eq x.id id)) [
  | inl k ↦ ground (arith, k)
  | inr k ↦ ground (arith, k, find-set_row id v p ds {d = d})
]

find-has_id :
    (id : String) (ds : List Deployment) {d : Deployment}
    → find (has_id id) ds ≡ some d
    → str_eq d.id id ≡ true
find-has_id id [] h = cc
find-has_id id (x ∷ ds) {d} h = ground (arith, find-has_id id ds {d = d})

pub update-HasStatus :
    (id : String) (v u : Status) (p : Option Placement) (s : Store)
    → HasStatus id u s
    → HasStatus id v (update_deployment id v p s)
unfolding update_deployment
update-HasStatus id v u p s (d, found, same) = (
  set_row id v p d,
  find-set_row id v p s.deployments found,
  ground (arith, find-has_id id s.deployments {d = d} found),
)

Answer-cases :
    (a : Answer) → ((v : String) × (a ≡ answered v)) ⊎ ((error : String) × (a ≡ broken error))
Answer-cases (answered v) = inl (v, refl)
Answer-cases (broken error) = inr (error, refl)

module _ (engine : EngineCall → Answer) (e : Setting) (node : Node) (b : DeployRequest) where
  -- The row is `failed` if a call broke, and `starting` otherwise.
  abbrev pub Ended : Store × List EngineCall → Type 0
  Ended (s, calls) =
      (HasStatus e.id failed s × Broke engine calls)
      ⊎ (HasStatus e.id starting s
          × ((c : EngineCall) → In c calls → (v : String) × (engine c ≡ answered v)))

  start-Ended : (u : Status) (s : Store) → HasStatus e.id u s → Ended (start engine e node b s)
  start-Ended u s h =
      let c = deploy (deploy_call e node b) in
      let before = update-HasStatus e.id starting u (some (placed node b)) s h in
      elim (Answer-cases (engine c)) [
        | inl (v, k) ↦ rw k (
            inr (
              update-HasStatus e.id starting starting _ _ before,
              λ x i. elim i [
                | inl same ↦ (v, ap engine (sym same) ∙ k)
                | inr none_left ↦ absurd none_left
              ],
            ))
        | inr (error, k) ↦
            rw k (inl (update-HasStatus e.id failed starting _ _ before, (c, error, inl refl, k)))
      ]

  after_build-Ended :
      (c : BuildCall) (u : Status) (s : Store)
      → HasStatus e.id u s
      → Ended (after_build engine e node b c (engine (build c)) s)
  after_build-Ended c u s h = elim (Answer-cases (engine (build c))) [
    | inr (error, k) ↦
        rw k (inl (update-HasStatus e.id failed u _ s h, (build c, error, inl refl, k)))
    | inl (v, k) ↦ rw k (elim (start-Ended u s h) [
      | inl (row, (x, error, i, b_i)) ↦ inl (row, (x, error, inr i, b_i))
      | inr (row, fine) ↦ inr (
        row,
        λ x i. elim i [ inl same ↦ (v, ap engine (sym same) ∙ k) | inr later ↦ fine x later ],
      )
    ])
  ]

  run_source-Ended :
      (repo : Option String) (s : Store)
      → HasStatus e.id queued s
      → Ended (run_source engine e node b repo s)
  run_source-Ended none s h = start-Ended queued s h
  run_source-Ended (some repo) s h =
      after_build-Ended (build_call e node repo b) building _
        (update-HasStatus e.id building queued (some (placed node b)) s h)

  -- The row of another id is what it was.
  abbrev pub Same : String → Store → Store → Type 0
  Same id s t = find (has_id id) t.deployments ≡ find (has_id id) s.deployments

  find-other :
      (id : String) (v : Status) (p : Option Placement) (ds : List Deployment)
      → id ≢ e.id
      → find (has_id id) (map (set_row e.id v p) ds) ≡ find (has_id id) ds
  find-other id v p [] n = refl
  find-other id v p (x ∷ ds) n = elim (Bool-cases (str_eq x.id e.id)) [
    | inl k ↦ ground (
      arith,
      k,
      eq_iff x.id e.id,
      eq_iff x.id id,
      (λ (m : x.id ≡ id). n (sym m ∙ (eq_iff x.id e.id).0 k)),
      find-other id v p ds n,
    )
    | inr k ↦ ground (arith, k, find-other id v p ds n)
  ]

  update-Same :
      (id : String) (v : Status) (p : Option Placement) (s : Store)
      → id ≢ e.id
      → Same id s (update_deployment e.id v p s)
  unfolding update_deployment
  update-Same id v p s n = find-other id v p s.deployments n

  with_answer-Same :
      (id : String) (a : Answer) (s : Store)
      → id ≢ e.id
      → Same id s (with_answer engine e node b a s)
  with_answer-Same id (answered v) s n = update-Same id _ _ s n
  with_answer-Same id (broken v) s n = update-Same id _ _ s n

  start-Same : (id : String) (s : Store) → id ≢ e.id → Same id s (start engine e node b s).0
  start-Same id s n =
      with_answer-Same id (engine (deploy (deploy_call e node b))) _ n
      ∙ update-Same id starting (some (placed node b)) s n

  after_build-Same :
      (id : String) (c : BuildCall) (a : Answer) (s : Store)
      → id ≢ e.id
      → Same id s (after_build engine e node b c a s).0
  after_build-Same id c (broken v) s n = update-Same id _ _ s n
  after_build-Same id c (answered v) s n = start-Same id s n

  run_source-Same :
      (id : String) (repo : Option String) (s : Store)
      → id ≢ e.id
      → Same id s (run_source engine e node b repo s).0
  run_source-Same id none s n = start-Same id s n
  run_source-Same id (some repo) s n =
      after_build-Same id (build_call e node repo b) (engine (build (build_call e node repo b))) _ n
      ∙ update-Same id building (some (placed node b)) s n

  create-HasStatus :
      (s t : Store) → create_deployment (row_of e b) s ≡ some t → HasStatus e.id queued t
  unfolding create_deployment
  create-HasStatus s t h =
      let same : (row_of e b ∷ s.deployments) ≡ t.deployments = ground (arith, h) in
      (
        row_of e b,
        subst (λ ds. find (has_id e.id) ds ≡ some (row_of e b)) same
            (ground (arith, eq_iff e.id e.id)),
        refl,
      )

  create-Same :
      (id : String) (s t : Store)
      → id ≢ e.id
      → create_deployment (row_of e b) s ≡ some t
      → Same id s t
  unfolding create_deployment
  create-Same id s t n h =
      let same : (row_of e b ∷ s.deployments) ≡ t.deployments = ground (arith, h) in
      subst (λ ds. find (has_id id) ds ≡ find (has_id id) s.deployments) same
        (ground (arith, eq_iff e.id id, λ (m : e.id ≡ id). n (sym m)))

  -- The pipeline of a deployment whose row could be added leaves the row failed, after a call of
  -- the engine that got no answer that is ok, or starting, after calls that all got one; the row
  -- of every other id is what it was before the request.
  pub pipeline-Ended :
      (s t : Store)
      → create_deployment (row_of e b) s ≡ some t
      → Ended (pipeline engine e node b t)
        × ((id : String) → id ≢ e.id → Same id s (pipeline engine e node b t).0)
  unfolding pipeline
  pipeline-Ended s t h = (
    run_source-Ended b.repo t (create-HasStatus s t h),
    λ id n. run_source-Same id b.repo t n ∙ create-Same id s t n h,
  )
