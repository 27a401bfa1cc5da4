-- ===== src/Api/Deliveries.antt =====
-- The deliveries of GitHub's webhook in apps/api/src/index.ts, which the table of claimed
-- deliveries keeps from being processed twice.
use hostingservices.Common.{
  ℕ, String, Bool, true, false, Option, List, [], ◌∷◌, ◌≡◌, refl, sym, ap, ◌∙◌, subst, any, get_or,
  str_eq, eq_iff, arith, Bool-cases, inl, inr,
}
use hostingservices.Common.Texts.{Text}
use hostingservices.EngineApi.{is_missing}
use hostingservices.Api.{
  Project, Store, create_project, create_domain, mark_domain_verified, claim_github_delivery,
}
use hostingservices.Api.Domains.{add_domain, verify_domain}
use hostingservices.Api.Calls.{Setting}
use hostingservices.Api.Webhooks.{Delivery, verify_github_signature, github_webhook, process}
use hostingservices.Api.Unchanged.{process-AreKept, set_status-AreKept, deploy_route-AreKept}
use hostingservices.Api.Requests.{
  World, Request, project, domain, verify, status, deployment, webhook, handle, run, add_project,
}

abbrev pub is_claimed : String → Store → Bool
is_claimed id s = any (λ d. str_eq d id) s.deliveries

same_deliveries :
    (id : String) (s t : Store)
    → t.deliveries ≡ s.deliveries
    → is_claimed id s ≡ true
    → is_claimed id t ≡ true
same_deliveries id s t e h = ap (any (λ d. str_eq d id)) e ∙ h

deliveries-add_project :
    (is_url : String → Bool) (p : Project) (s : Store)
    → (add_project is_url p s).store.deliveries ≡ s.deliveries
unfolding add_project create_project
deliveries-add_project is_url p s = ground arith

deliveries-add_domain :
    (id token : String) (now : ℕ) (project_id : String) (name : Text) (s : Store)
    → (add_domain id token now project_id name s).1.deliveries ≡ s.deliveries
unfolding add_domain create_domain
deliveries-add_domain id token now project_id name s = ground arith

deliveries-verify_domain :
    (resolve_txt : Text → Option (List String)) (prefix : Text) (id : String) (s : Store)
    → (verify_domain resolve_txt prefix id s).1.deliveries ≡ s.deliveries
unfolding verify_domain mark_domain_verified
deliveries-verify_domain resolve_txt prefix id s = ground arith

module _ (w : World) (e : Setting) (image : String) (d : Delivery) where
  webhook-claimed :
      (id : String) (s : Store)
      → is_claimed id s ≡ true
      → is_claimed id (github_webhook e image d w.hmac w.webhook_secret s).store ≡ true
  unfolding github_webhook claim_github_delivery
  webhook-claimed id s h =
      elim (Bool-cases (verify_github_signature w.hmac w.webhook_secret d.raw d.signature)) [
        | inr k ↦ rw k h
        | inl k ↦ rw k (elim (Bool-cases (is_missing d.id)) [
          | inl m ↦ rw m h
          | inr m ↦ rw m (elim (Bool-cases (is_claimed (get_or d.id "") s)) [
            | inl a ↦ rw a h
            | inr a ↦
                let t : Store = record s { deliveries = get_or d.id "" ∷ s.deliveries } in
                rw a (
                  same_deliveries id t (process e image d t).store
                    (process-AreKept e image d t).deliveries (ground (arith, h)))
          ])
        ])
      ]

  -- A delivery with a valid signature and an id has its id claimed.
  webhook-claims :
      (s : Store)
      → verify_github_signature w.hmac w.webhook_secret d.raw d.signature ≡ true
      → is_missing d.id ≡ false
      → is_claimed (get_or d.id "") (github_webhook e image d w.hmac w.webhook_secret s).store
        ≡ true
  unfolding github_webhook claim_github_delivery
  webhook-claims s k m = elim (Bool-cases (is_claimed (get_or d.id "") s)) [
    | inl a ↦ rw (k, m, a) a
    | inr a ↦
        let t : Store = record s { deliveries = get_or d.id "" ∷ s.deliveries } in
        rw (k, m, a)
          (same_deliveries (get_or d.id "") t (process e image d t).store
            (process-AreKept e image d t).deliveries
            (ground (arith, eq_iff (get_or d.id "") (get_or d.id ""))))
  ]

  webhook-deduplicated :
      (s : Store)
      → is_claimed (get_or d.id "") s ≡ true
      → ((github_webhook e image d w.hmac w.webhook_secret s).store ≡ s)
        × ((github_webhook e image d w.hmac w.webhook_secret s).calls ≡ [])
  unfolding github_webhook claim_github_delivery
  webhook-deduplicated s h =
      elim (Bool-cases (verify_github_signature w.hmac w.webhook_secret d.raw d.signature)) [
        | inr k ↦ rw k (refl, refl)
        | inl k ↦ elim (Bool-cases (is_missing d.id)) [
          | inl m ↦ rw (k, m) (refl, refl)
          | inr m ↦ rw (k, m, h) (refl, refl)
        ]
      ]

-- A claimed delivery stays claimed.
handle-claimed :
    (w : World) (r : Request) (id : String) (s : Store)
    → is_claimed id s ≡ true
    → is_claimed id (handle w r s).store ≡ true
unfolding handle
handle-claimed w (project p) id s h =
    same_deliveries id s (handle w (project p) s).store (deliveries-add_project w.is_url p s) h
handle-claimed w (domain i token now project_id name) id s h =
    same_deliveries id s (handle w (domain i token now project_id name) s).store
      (deliveries-add_domain i token now project_id name s) h
handle-claimed w (verify i resolve_txt) id s h =
    same_deliveries id s (handle w (verify i resolve_txt) s).store
      (deliveries-verify_domain resolve_txt w.dns_prefix i s) h
handle-claimed w (status header i v p) id s h =
    same_deliveries id s (handle w (status header i v p) s).store
      (set_status-AreKept w.callback_secret header i v p s).deliveries h
handle-claimed w (deployment e b) id s h =
    same_deliveries id s (handle w (deployment e b) s).store
      (deploy_route-AreKept w.engine e b w.is_url w.is_name s).deliveries h
handle-claimed w (webhook e image d) id s h = webhook-claimed w e image d id s h

run-claimed :
    (w : World) (rs : List Request) (id : String) (s : Store)
    → is_claimed id s ≡ true
    → is_claimed id (run w rs s).0 ≡ true
unfolding run
run-claimed w [] id s h = h
run-claimed w (r ∷ rs) id s h = run-claimed w rs id (handle w r s).store (handle-claimed w r id s h)

-- Once a signed delivery with an id was handled, a delivery with the same id changes no table and
-- makes no call of the engine, whatever requests came in between.
pub webhook-again :
    (w : World) (e : Setting) (image : String) (d : Delivery) (rs : List Request) (again : Setting)
    (other : String) (redelivered : Delivery) (s : Store)
    → verify_github_signature w.hmac w.webhook_secret d.raw d.signature ≡ true
    → is_missing d.id ≡ false
    → redelivered.id ≡ d.id
    → let t = (run w (webhook e image d ∷ rs) s).0 in
      let o = handle w (webhook again other redelivered) t in (o.store ≡ t) × (o.calls ≡ [])
unfolding handle run
webhook-again w e image d rs again other redelivered s k m same =
    webhook-deduplicated w again other redelivered (run w (webhook e image d ∷ rs) s).0 (
      subst
        (λ (o : Option String).
          is_claimed (get_or o "") (run w (webhook e image d ∷ rs) s).0 ≡ true)
        (sym same)
        (run-claimed w rs (get_or d.id "") (handle w (webhook e image d) s).store
          (webhook-claims w e image d s k m)))
