-- ===== src/Deploy/Success.antt =====
-- What a deployment of apps/engine/src/deploy.ts that succeeds has established.
use hostingservices.Common.{
  ℕ, String, Bool, true, false, Option, none, some, List, [], ◌∷◌, ◌≡◌, ◌≢◌, sym, ap, ◌∙◌, inl, inr,
  subst, In, All,
}
use hostingservices.Health.{Attempt, Check, is_healthy, with_defaults, wait_for_healthy_container}
use hostingservices.Deploy.{
  RuntimeSpec, Settings, proxy_enabled, candidate_host_port, create_and_start, check_health,
  verdict, hand_over, Deployed, checked, with_candidate, deploy_over, deploy_runtime,
  find_active_container, actual_port, health_url,
}
use hostingservices.Deploy.Daemon.{
  Container, World, ok, Faults, remove_container, inspect_calls, bind-ok, attempt-state, attempt,
  clean-ok, on_error, list_calls,
}
use hostingservices.Deploy.HandOver.{
  Runs, create_and_start-Runs, find_active_sound, verdict-ok, Served, hand_over-ok,
}

-- The wait for the container, with the URL that the deployment gives, found it healthy.
abbrev pub FoundHealthy : Settings → (ℕ → Attempt) → RuntimeSpec → Check → Type 0
FoundHealthy s attempts spec c =
    (url : Option String) × (wait_for_healthy_container s.healthcheck_required
        (with_defaults none none url spec.health_mode) attempts
      ≡ some (is_healthy c))

Served-routes :
    (spec : RuntimeSpec) (candidate : String) (u w v : World) (d : Deployed) (b : Bool)
    → u.routes ≡ w.routes
    → Served spec candidate u v d b
    → Served spec candidate w v d b
Served-routes spec candidate u w v d true e h = h
Served-routes spec candidate u w v d false e h = (h.0, h.1 ∙ e)

checked-ok :
    (s : Settings) (f : Faults) (attempts : ℕ → Attempt) (spec : RuntimeSpec) (candidate : String)
    (previous : Option Container) (w v : World) (d : Deployed)
    → ((p : Container) → previous ≡ some p → candidate ≢ p.name)
    → Runs candidate spec.image w.containers
    → checked s f attempts spec candidate previous w ≡ ok d v
    → FoundHealthy s attempts spec d.health
      × Runs d.name spec.image v.containers
      × Served spec candidate w v d (proxy_enabled s spec)
unfolding checked check_health
checked-ok s f attempts spec candidate previous w v d n r h =
    let url = health_url spec (actual_port f (candidate_host_port s spec previous)) in
    let waited =
      wait_for_healthy_container s.healthcheck_required
        (with_defaults none none url spec.health_mode) attempts in
    let (c, u, p, q) = bind-ok (verdict waited w) (hand_over s f spec candidate previous) h in
    let (found, same) = verdict-ok waited w u c p in
    let done =
      hand_over-ok s f spec candidate previous c u v d n
        (subst (λ z. Runs candidate spec.image z.containers) (sym same) r) q in
    (
      (url, found ∙ ap (λ z. some (is_healthy z)) (sym done.0)),
      done.1,
      Served-routes spec candidate u w v d (proxy_enabled s spec) (ap (λ z. z.routes) same) done.2,
    )

deploy_over-ok :
    (s : Settings) (f : Faults) (attempts : ℕ → Attempt) (spec : RuntimeSpec) (candidate : String)
    (previous : Option Container) (w v : World) (d : Deployed)
    → ((p : Container) → previous ≡ some p → candidate ≢ p.name)
    → deploy_over s f attempts spec candidate previous w ≡ ok d v
    → FoundHealthy s attempts spec d.health
      × Runs d.name spec.image v.containers
      × Served spec candidate w v d (proxy_enabled s spec)
unfolding deploy_over with_candidate
deploy_over-ok s f attempts spec candidate previous w v d n h =
    let port = candidate_host_port s spec previous in
    let body = with_candidate s f attempts spec candidate previous in
    let (x, u, p, q) =
      bind-ok (create_and_start s f spec candidate port w)
        (λ _. on_error (remove_container f candidate) body) h in
    let (runs, routes) = create_and_start-Runs s f spec candidate port w u p in
    let (y, t, p', q') =
      bind-ok (attempt f.inspects inspect_calls u)
        (λ _. checked s f attempts spec candidate previous)
        (clean-ok (remove_container f candidate) (body u) q) in
    let same : t ≡ u = (attempt-state f.inspects inspect_calls u).0 y t p' in
    let done =
      checked-ok s f attempts spec candidate previous t v d n
        (subst (λ z. Runs candidate spec.image z.containers) (sym same) runs) q' in
    (
      done.0,
      done.1,
      Served-routes spec candidate t w v d (proxy_enabled s spec) (ap (λ z. z.routes) same ∙ routes)
          done.2,
    )

All-at : (P : Container → Type 0) (cs : List Container) (c : Container) → All P cs → In c cs → P c
All-at P [] c a h = absurd h
All-at P (d ∷ cs) c (p, a) (inl e) = subst P e p
All-at P (d ∷ cs) c (p, a) (inr h) = All-at P cs c a h

-- A deployment that succeeds, with a name for its candidate that no container has, has found the
-- candidate healthy; a container of the name that it reports runs the image of the request; and
-- with the proxy on that is the candidate, to which alone the router's file of the runtime's safe
-- name leads, while with the proxy off it has the name of the runtime and no file has changed.
pub deploy_runtime-ok :
    (s : Settings) (f : Faults) (attempts : ℕ → Attempt) (spec : RuntimeSpec) (candidate : String)
    (w v : World) (d : Deployed)
    → All (λ (c : Container). c.name ≢ candidate) w.containers
    → deploy_runtime s f attempts spec candidate w ≡ ok d v
    → FoundHealthy s attempts spec d.health
      × Runs d.name spec.image v.containers
      × Served spec candidate w v d (proxy_enabled s spec)
unfolding deploy_runtime
deploy_runtime-ok s f attempts spec candidate w v d fresh h =
    let over = λ (u : World).
      deploy_over s f attempts spec candidate (find_active_container spec.name u.containers) u in
    let (x, u, p, q) = bind-ok (attempt f.lists list_calls w) (λ _. over) h in
    let same : u ≡ w = (attempt-state f.lists list_calls w).0 x u p in
    let previous = find_active_container spec.name u.containers in
    let fresh_of = λ (c : Container) (e : previous ≡ some c).
      let member = find_active_sound spec.name u.containers c e in
      All-at (λ z. z.name ≢ candidate) w.containers c fresh
        (subst (λ z. In c z.containers) same member) in
    let done =
      deploy_over-ok s f attempts spec candidate previous u v d (λ c e k. fresh_of c e (sym k)) q in
    (
      done.0,
      done.1,
      Served-routes spec candidate u w v d (proxy_enabled s spec) (ap (λ z. z.routes) same) done.2,
    )
