-- ===== src/Api/Unchanged.antt =====
-- What the operations of apps/api/src/index.ts on projects, deployments and deliveries leave as it
-- was.
use hostingservices.Common.{
  String, Bool, Option, none, some, ◌∷◌, ◌≡◌, refl, arith, Bool-cases, inl, inr, Option-cases, any,
  str_eq, ◌∙◌, get_or,
}
use hostingservices.Rollback.{Answer, answered, broken}
use hostingservices.EngineApi.{is_missing}
use hostingservices.Database.{Status, building, starting}
use hostingservices.Api.{
  Project, Deployment, Placement, Store, create_project, create_deployment, update_deployment,
  claim_github_delivery,
}
use hostingservices.Api.Bodies.{DeployRequest, passes}
use hostingservices.Api.Calls.{
  Node, EngineCall, BuildCall, build, deploy, Setting, placed, build_call, deploy_call,
}
use hostingservices.Api.Deploying.{
  pipeline, start, run_source, after_build, with_answer, refusal, accepted, deploy_route, row_of,
}
use hostingservices.Api.Webhooks.{
  Delivery, verify_github_signature, github_webhook, process, push_project, pushed_row,
}
use hostingservices.Api.Requests.{add_project, set_status}

-- The tables of projects, domains and deliveries are the same.
pub record AreKept (s t : Store) : Type 0 where
  pub projects : t.projects ≡ s.projects
  pub domains : t.domains ≡ s.domains
  pub deliveries : t.deliveries ≡ s.deliveries

kept_refl : (s : Store) → AreKept s s
kept_refl s = record { projects = refl; domains = refl; deliveries = refl }

kept_trans : {s t u : Store} → AreKept s t → AreKept t u → AreKept s u
kept_trans h k = record {
  projects = k.projects ∙ h.projects;
  domains = k.domains ∙ h.domains;
  deliveries = k.deliveries ∙ h.deliveries;
}

update_deployment-AreKept :
    (id : String) (v : Status) (p : Option Placement) (s : Store)
    → AreKept s (update_deployment id v p s)
unfolding update_deployment
update_deployment-AreKept id v p s = record { projects = refl; domains = refl; deliveries = refl }

pub create_deployment-AreKept :
    (d : Deployment) (s t : Store) → create_deployment d s ≡ some t → AreKept s t
unfolding create_deployment
create_deployment-AreKept d s t e = record {
  projects = ground arith;
  domains = ground arith;
  deliveries = ground arith;
}

module _ (engine : EngineCall → Answer) (e : Setting) (node : Node) (b : DeployRequest) where
  with_answer-AreKept : (a : Answer) (s : Store) → AreKept s (with_answer engine e node b a s)
  with_answer-AreKept (answered v) s = update_deployment-AreKept _ _ _ s
  with_answer-AreKept (broken v) s = update_deployment-AreKept _ _ _ s

  start-AreKept : (s : Store) → AreKept s (start engine e node b s).0
  start-AreKept s =
      kept_trans (update_deployment-AreKept e.id starting (some (placed node b)) s)
        (with_answer-AreKept (engine (deploy (deploy_call e node b))) _)

  after_build-AreKept :
      (c : BuildCall) (a : Answer) (s : Store) → AreKept s (after_build engine e node b c a s).0
  after_build-AreKept c (broken v) s = update_deployment-AreKept _ _ _ s
  after_build-AreKept c (answered v) s = start-AreKept s

  pub pipeline-AreKept : (s : Store) → AreKept s (pipeline engine e node b s).0
  unfolding pipeline
  pipeline-AreKept s = elim b.repo as (λ repo. AreKept s (run_source engine e node b repo s).0) [
    | none ↦ start-AreKept s
    | some repo ↦
        let c = build_call e node repo b in
        kept_trans (update_deployment-AreKept e.id building (some (placed node b)) s)
          (after_build-AreKept c (engine (build c)) _)
  ]

module _ (engine : EngineCall → Answer) (e : Setting) (b : DeployRequest) where
  accepted-AreKept :
      (s : Store) → AreKept s (accepted engine e b (create_deployment (row_of e b) s) s).store
  accepted-AreKept s = elim (Option-cases (create_deployment (row_of e b) s)) [
    | inl k ↦ rw k (kept_refl s)
    | inr (t, k) ↦ rw k (
        kept_trans (create_deployment-AreKept (row_of e b) s t k) (pipeline-AreKept engine e _ b t))
  ]

  pub deploy_route-AreKept :
      (is_url is_name : String → Bool) (s : Store)
      → AreKept s (deploy_route engine e b is_url is_name s).store
  unfolding deploy_route
  deploy_route-AreKept is_url is_name s = elim (Bool-cases (passes is_url is_name b)) [
    | inr k ↦ rw k (kept_refl s)
    | inl k ↦ rw k (elim (Option-cases (refusal b s)) [
      | inl r ↦ rw r (accepted-AreKept s)
      | inr (x, r) ↦ rw r (kept_refl s)
    ])
  ]

module _ (e : Setting) (image : String) (d : Delivery) where
  push_project-AreKept :
      (repo : String) (p : Option Project) (s : Store)
      → AreKept s (push_project e image d repo p s).store
  push_project-AreKept repo none s = kept_refl s
  push_project-AreKept repo (some p) s =
      elim (Option-cases (create_deployment (pushed_row e image p repo) s)) [
        | inl k ↦ rw k (kept_refl s)
        | inr (t, k) ↦ rw k (create_deployment-AreKept (pushed_row e image p repo) s t k)
      ]

  pub process-AreKept : (s : Store) → AreKept s (process e image d s).store
  process-AreKept s = elim (Bool-cases (str_eq (get_or d.event "") "push")) [
    | inr k ↦ rw k (kept_refl s)
    | inl k ↦ rw k (elim (Bool-cases (is_missing d.html_url)) [
      | inl m ↦ rw m (kept_refl s)
      | inr m ↦ rw m (push_project-AreKept _ _ s)
    ])
  ]

  -- A delivery leaves the domains as they were.
  pub domains-github_webhook :
      (hmac : String → String → String) (secret : Option String) (s : Store)
      → (github_webhook e image d hmac secret s).store.domains ≡ s.domains
  unfolding github_webhook claim_github_delivery
  domains-github_webhook hmac secret s =
      elim (Bool-cases (verify_github_signature hmac secret d.raw d.signature)) [
        | inr k ↦ rw k refl
        | inl k ↦ rw k (elim (Bool-cases (is_missing d.id)) [
          | inl m ↦ rw m refl
          | inr m ↦ rw m (elim (Bool-cases (any (λ x. str_eq x (get_or d.id "")) s.deliveries)) [
            | inl a ↦ rw a refl
            | inr a ↦ rw a (
                (process-AreKept (record s { deliveries = get_or d.id "" ∷ s.deliveries })).domains)
          ])
        ])
      ]

pub domains-add_project :
    (is_url : String → Bool) (p : Project) (s : Store)
    → (add_project is_url p s).store.domains ≡ s.domains
unfolding add_project create_project
domains-add_project is_url p s = ground arith

pub set_status-AreKept :
    (secret : String) (header : Option String) (id : String) (v : Status) (p : Option Placement)
    (s : Store)
    → AreKept s (set_status secret header id v p s).store
unfolding set_status update_deployment
set_status-AreKept secret header id v p s = record {
  projects = ground arith;
  domains = ground arith;
  deliveries = ground arith;
}
