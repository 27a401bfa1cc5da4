-- ===== src/Api/Refinement.antt =====
-- The requests of apps/api/src/index.ts and their queries in apps/api/src/db.ts against the
-- registry.
use mathlib.Core.Option
use mathlib.Core.Path.{fun_ext}
use hostingservices.Common.{
  ℕ, String, Bool, true, false, Option, none, some, List, [], ◌∷◌, ◌≡◌, refl, sym, ap, subst, any,
  arith, Bool-cases, Option-cases, inl, inr, if◌then◌else◌,
}
use hostingservices.Common.Texts.{Text}
use hostingservices.Api.{
  Domain, Store, is_taken, create_domain, get_domain, mark_domain_verified, project_exists,
}
use hostingservices.Api.Domains.{Response, added, add_domain, verify_domain, holds, record_name}
use hostingservices.Api.Requests.{
  World, Request, project, domain, verify, status, deployment, webhook, handle, run,
}
use hostingservices.Api.Domains.{is_domain}
use hostingservices.Api.Unchanged.{
  domains-add_project, set_status-AreKept, deploy_route-AreKept, domains-github_webhook,
}
use hostingservices.Api.Rows.{taken_free, view-verify_row, found_by_name, verify_row-AreDistinct}
use hostingservices.Api.Registry.{
  Registry, Step, stay, claim, prove, claim_of, view_rows, view, AreDistinct,
}

-- From the tables `s` to `t`: the rows stay distinct, and the registry takes one step.
abbrev pub Refines : World → Request → Store → Store → Type 0
Refines w r s t = AreDistinct t.domains × Step w r (view s) (view t)

module _ (w : World) (r : Request) where
  same_domains : (s t : Store) → t.domains ≡ s.domains → AreDistinct s.domains → Refines w r s t
  same_domains s t e h =
      subst (λ ds. AreDistinct ds × Step w r (view s) (view_rows ds)) (sym e) (h, stay (view s))

  create_domain-claims :
      (d : Domain) (s : Store)
      → d.is_verified ≡ false
      → any (is_taken d) s.domains ≡ false
      → Step w r (view s) (view_rows (d ∷ s.domains))
  create_domain-claims d s v h = subst (Step w r (view s)) (fun_ext λ name. ground arith) (
      claim (view s) d.domain (claim_of d) (ap (Option.map claim_of) (taken_free d s.domains h).0)
        v)

  create_domain-Refines :
      (d : Domain) (s t : Store)
      → d.is_verified ≡ false
      → create_domain d s ≡ some t
      → AreDistinct s.domains
      → Refines w r s t
  unfolding create_domain project_exists
  create_domain-Refines d s t v e h = elim (Bool-cases (any (is_taken d) s.domains)) [
    | inl k ↦ ground (arith, k)
    | inr k ↦
        let same : (d ∷ s.domains) ≡ t.domains = ground (arith, k) in
        subst (λ ds. AreDistinct ds × Step w r (view s) (view_rows ds)) same
          ((k, h), create_domain-claims d s v k)
  ]

  added-Refines :
      (id : String) (d : Domain) (s : Store)
      → d.is_verified ≡ false
      → AreDistinct s.domains
      → (o : Option Store) → create_domain d s ≡ o
      → Refines w r s (added id o s).1
  added-Refines id d s v h none e = same_domains s s refl h
  added-Refines id d s v h (some t) e = create_domain-Refines d s t v e h

  known-Refines :
      (known : Bool) (id : String) (d : Domain) (other : Response × Store) (s : Store)
      → other.1 ≡ s
      → d.is_verified ≡ false
      → AreDistinct s.domains
      → Refines w r s (if known then added id (create_domain d s) s else other).1
  known-Refines true id d other s e v h = added-Refines id d s v h (create_domain d s) refl
  known-Refines false id d other s e v h =
      same_domains s other.1 (ap (λ (t : Store). t.domains) e) h

  add_domain-Refines :
      (id token : String) (now : ℕ) (project_id : String) (name : Text) (s : Store)
      → AreDistinct s.domains
      → Refines w r s (add_domain id token now project_id name s).1
  unfolding add_domain
  add_domain-Refines id token now project_id name s h = elim (Bool-cases (is_domain name)) [
    | inr k ↦ rw k (same_domains s s refl h)
    | inl k ↦ rw k (known-Refines (project_exists project_id s) id _ _ s refl refl h)
  ]

verify_domain-Refines :
    (w : World) (id : String) (resolve_txt : Text → Option (List String)) (s : Store)
    → AreDistinct s.domains
    → Refines w (verify id resolve_txt) s (verify_domain resolve_txt w.dns_prefix id s).1
unfolding verify_domain get_domain mark_domain_verified
verify_domain-Refines w id resolve_txt s h = elim (Option-cases (get_domain id s)) [
  | inl f ↦ rw f (same_domains w (verify id resolve_txt) s s refl h)
  | inr (d, f) ↦
      rw f
        (elim (Bool-cases
          (holds d.verification_token (resolve_txt (record_name w.dns_prefix d.domain)))) [
            | inr k ↦ rw k (same_domains w (verify id resolve_txt) s s refl h)
            | inl k ↦ rw k (
              verify_row-AreDistinct id s.domains h,
              subst (Step w (verify id resolve_txt) (view s))
                  (fun_ext λ name. sym (view-verify_row id s.domains h f name))
                  (prove (view s) d.domain (claim_of d)
                    (ap (Option.map claim_of) (found_by_name id s.domains h f)) k),
            )
          ])
]

-- Every request keeps the rows distinct, and does to the registry nothing, or what the registry
-- allows.
pub handle-Refines :
    (w : World) (r : Request) (s : Store)
    → AreDistinct s.domains
    → Refines w r s (handle w r s).store
unfolding handle
handle-Refines w (project p) s h =
    same_domains w (project p) s (handle w (project p) s).store (domains-add_project w.is_url p s) h
handle-Refines w (domain id token now project_id name) s h =
    add_domain-Refines w (domain id token now project_id name) id token now project_id name s h
handle-Refines w (verify id resolve_txt) s h = verify_domain-Refines w id resolve_txt s h
handle-Refines w (status header id v p) s h =
    same_domains w (status header id v p) s (handle w (status header id v p) s).store
      (set_status-AreKept w.callback_secret header id v p s).domains h
handle-Refines w (deployment e b) s h =
    same_domains w (deployment e b) s (handle w (deployment e b) s).store
      (deploy_route-AreKept w.engine e b w.is_url w.is_name s).domains h
handle-Refines w (webhook e image d) s h =
    same_domains w (webhook e image d) s (handle w (webhook e image d) s).store
      (domains-github_webhook e image d w.hmac w.webhook_secret s) h

-- A step for each request, in their order.
pub data Steps (w : World) : List Request → Registry → Registry → Type 0 where
  done : (f : Registry) → Steps w [] f f
  next :
      {r : Request} {rs : List Request} {f g h : Registry}
      → Step w r f g
      → Steps w rs g h
      → Steps w (r ∷ rs) f h

-- Handling requests one after the other refines the registry: from tables whose rows are distinct,
-- the registry that the tables show takes one allowed step for each request, and the rows stay
-- distinct.
pub run_refines :
    (w : World) (rs : List Request) (s : Store)
    → AreDistinct s.domains
    → AreDistinct (run w rs s).0.domains × Steps w rs (view s) (view (run w rs s).0)
unfolding run
run_refines w [] s h = (h, done (view s))
run_refines w (r ∷ rs) s h =
    let (distinct, step) = handle-Refines w r s h in
    let (last, steps) = run_refines w rs (handle w r s).store distinct in (last, next step steps)
