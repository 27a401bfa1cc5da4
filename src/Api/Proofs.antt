-- ===== src/Api/Proofs.antt =====
-- What the registry's steps give a project that deploys under its own domain: the steps alone say
-- who holds a name and that a proof was published, and the deployments of apps/api/src/index.ts
-- ask the tables that refine the registry.
use mathlib.Core.Option
use hostingservices.Common.{
  if◌then◌else◌, String, Bool, true, false, Option, none, some, List, ◌≡◌, ◌⊎◌, refl, sym, ap, ◌∙◌,
  subst, In, arith, Bool-cases, Option-cases, inl, inr,
}
use hostingservices.Common.Texts.{Text, text_eq, text_eq_iff}
use hostingservices.Rollback.{Answer, answered, broken}
use hostingservices.Api.{Domain, Store, get_verified_domain, create_deployment}
use hostingservices.Api.Domains.{Response, threw}
use hostingservices.Api.Bodies.{DeployRequest, passes}
use hostingservices.Api.Calls.{
  Node, EngineCall, BuildCall, DeployCall, build, deploy, Setting, domain_of, deploy_call,
  build_call,
}
use hostingservices.Api.Deploying.{
  pipeline, run_source, after_build, refusal, accepted, checked, deploy_route, row_of, stop,
}
use hostingservices.Api.Requests.{World, Request, deployment, handle, run, empty_store}
use hostingservices.Api.Registry.{
  Claim, Registry, Publishes, Step, stay, claim, prove, view, claim_of,
}
use hostingservices.Api.Rows.{verified_by_name}
use hostingservices.Api.Refinement.{Steps, done, next, run_refines}

-- The claim stays with the project and the token.
abbrev pub IsSame : Claim → Claim → Type 0
IsSame c d = (d.project_id ≡ c.project_id) × (d.token ≡ c.token)

-- Some request published the token.
abbrev pub WasPublished : World → List Request → Text → String → Type 0
WasPublished w rs name token = (r : Request) × In r rs × Publishes w r name token

module _ (w : World) where
  Step-proven :
      {r : Request} {f g : Registry} (name : Text) (c : Claim)
      → Step w r f g
      → g name ≡ some c
      → c.is_proven ≡ true
      → (f name ≡ some c) ⊎ Publishes w r name c.token
  Step-proven name c (stay f) e p = inl e
  Step-proven name c (claim f n d free u) e p = elim (Bool-cases (text_eq n name)) [
    | inl k ↦ ground (arith, k)
    | inr k ↦ inl (ground (arith, k))
  ]
  Step-proven {r} name c (prove f n d held pub_n) e p = elim (Bool-cases (text_eq n name)) [
    | inl k ↦
        let same : d.token ≡ c.token = ground (arith, k) in
        inr (
          subst (λ t. Publishes w r name t) same
            (subst (λ m. Publishes w r m d.token) ((text_eq_iff n name).0 k) pub_n))
    | inr k ↦ inl (ground (arith, k))
  ]

  Steps-proven :
      {rs : List Request} {f g : Registry} (name : Text) (c : Claim)
      → Steps w rs f g
      → g name ≡ some c
      → c.is_proven ≡ true
      → (f name ≡ some c) ⊎ WasPublished w rs name c.token
  Steps-proven name c (done f) e p = inl e
  Steps-proven name c (next {r} {rs} step steps) e p = elim (Steps-proven name c steps e p) [
    | inr (q, i, published) ↦ inr (q, inr i, published)
    | inl k ↦ elim (Step-proven name c step k p) [
      | inl held ↦ inl held
      | inr published ↦ inr (r, inl refl, published)
    ]
  ]

  Step-keeps :
      {r : Request} {f g : Registry} (name : Text) (c : Claim)
      → Step w r f g
      → f name ≡ some c
      → (d : Claim) × (g name ≡ some d) × IsSame c d
  Step-keeps name c (stay f) e = (c, e, (refl, refl))
  Step-keeps name c (claim f n d free u) e = elim (Bool-cases (text_eq n name)) [
    | inl k ↦
        ground
          (arith, k, text_eq_iff n name, subst (λ m. f m ≡ none) ((text_eq_iff n name).0 k) free)
    | inr k ↦ (c, ground (arith, k), (refl, refl))
  ]
  Step-keeps name c (prove f n d held pub_n) e = elim (Bool-cases (text_eq n name)) [
    | inl k ↦
        let there = subst (λ m. f m ≡ some d) ((text_eq_iff n name).0 k) held in
        (
          record d { is_proven = true },
          ground (arith, k),
          (ground (arith, there), ground (arith, there)),
        )
    | inr k ↦ (c, ground (arith, k), (refl, refl))
  ]

  -- A name that is claimed stays with its project and its token, over any steps.
  pub Steps-keep :
      {rs : List Request} {f g : Registry} (name : Text) (c : Claim)
      → Steps w rs f g
      → f name ≡ some c
      → (d : Claim) × (g name ≡ some d) × IsSame c d
  Steps-keep name c (done f) e = (c, e, (refl, refl))
  Steps-keep name c (next step steps) e =
      let (d, e', same) = Step-keeps name c step e in
      let (x, e'', last) = Steps-keep name d steps e' in
      (x, e'', (last.0 ∙ same.0, last.1 ∙ same.1))

-- A call of the pipeline for the deployment is the one that is made from the body.
module _ (engine : EngineCall → Answer) (e : Setting) (node : Node) (b : DeployRequest) where
  after_build-deploy :
      (c : BuildCall) (a : Answer) (s : Store) {q : DeployCall}
      → In (deploy q) (after_build engine e node b c a s).1
      → deploy_call e node b ≡ q
  after_build-deploy c (broken v) s h = ground (arith, h)
  after_build-deploy c (answered v) s h = ground (arith, h)

  pub pipeline-deploy :
      (s : Store) {q : DeployCall}
      → In (deploy q) (pipeline engine e node b s).1
      → deploy_call e node b ≡ q
  unfolding pipeline
  pipeline-deploy s {q} h =
      elim b.repo
          as (λ repo.
            In (deploy q) (run_source engine e node b repo s).1 → deploy_call e node b ≡ q) [
              | none ↦ λ i. ground (arith, i)
              | some repo ↦
                  λ i. after_build-deploy _ (engine (build (build_call e node repo b))) _ i
            ]
        h

-- A body that the checks do not refuse, and that names a domain, has the verified row of its
-- project.
pub refusal-verified :
    (b : DeployRequest) (s : Store) (name : Text)
    → refusal b s ≡ none
    → domain_of b ≡ some name
    → (d : Domain) × (get_verified_domain b.project_id name s ≡ some d)
unfolding refusal
refusal-verified b s name h e = elim (Option-cases (get_verified_domain b.project_id name s)) [
  | inr found ↦ found
  | inl k ↦ ground (arith, k)
]

module _ (engine : EngineCall → Answer) (e : Setting) (b : DeployRequest) where
  accepted-deploy :
      (o : Option Store) (s : Store) (q : DeployCall)
      → In (deploy q) (accepted engine e b o s).calls
      → q.domain ≡ domain_of b
  unfolding deploy_call
  accepted-deploy none s q h = absurd h
  accepted-deploy (some t) s q h =
      ap (λ (c : DeployCall). c.domain) (sym (pipeline-deploy engine e _ b t h))

  checked-deploy :
      (o : Option Response) (s : Store) (q : DeployCall)
      → In (deploy q) (checked engine e b o s).calls
      → (o ≡ none) × (q.domain ≡ domain_of b)
  checked-deploy none s q h = (refl, accepted-deploy (create_deployment (row_of e b) s) s q h)
  checked-deploy (some r) s q h = absurd h

  -- The engine is called to deploy only for a body that the checks let through, with its domain.
  pub deploy_route-deploy :
      (is_url is_name : String → Bool) (s : Store) (q : DeployCall)
      → In (deploy q) (deploy_route engine e b is_url is_name s).calls
      → (refusal b s ≡ none) × (q.domain ≡ domain_of b)
  unfolding deploy_route
  deploy_route-deploy is_url is_name s q h =
      elim (passes is_url is_name b)
          as (λ p.
            In (deploy q) (if p then checked engine e b (refusal b s) s else stop threw s).calls
            → (refusal b s ≡ none) × (q.domain ≡ domain_of b)) [
              | true ↦ λ i. checked-deploy (refusal b s) s q i
              | false ↦ λ i. absurd i
            ]
        h

-- After any requests from empty tables, if the API asks the engine to deploy under a domain, then
-- the registry has the domain claimed for the project of the request, and one of the earlier
-- requests was a verification whose DNS query found the claim's token.
pub deployed_domain-proven :
    (w : World) (rs : List Request) (e : Setting) (b : DeployRequest) (q : DeployCall) (name : Text)
    → In (deploy q) (handle w (deployment e b) (run w rs empty_store).0).calls
    → q.domain ≡ some name
    → (c : Claim) × (view (run w rs empty_store).0 name ≡ some c)
      × (c.project_id ≡ b.project_id)
      × WasPublished w rs name c.token
unfolding handle get_verified_domain
deployed_domain-proven w rs e b q name i named =
    let s = (run w rs empty_store).0 in
    let (distinct, steps) = run_refines w rs empty_store tt in
    let (free, same) = deploy_route-deploy w.engine e b w.is_url w.is_name s q i in
    let (d, verified) = refusal-verified b s name free (sym same ∙ named) in
    let (row, project, proven) = verified_by_name b.project_id name s.domains distinct verified in
    (
      claim_of d,
      ap (Option.map claim_of) row,
      project,
      elim (Steps-proven w name (claim_of d) steps (ap (Option.map claim_of) row) proven) [
        | inl h ↦ cc
        | inr published ↦ published
      ],
    )
