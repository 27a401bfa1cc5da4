-- ===== src/Deploy/Failure.antt =====
-- A deployment of apps/engine/src/deploy.ts that fails leaves what ran before it alone.
use hostingservices.Common.{
  ℕ, String, Bool, true, false, Option, none, some, List, [], ◌∷◌, ◌++◌, ◌≡◌, ◌⊎◌, refl, sym, ◌∙◌,
  not, str_eq, eq_iff, keep, arith, map, inl, inr, subst,
}
use hostingservices.Health.{Attempt, Check, Result, is_healthy, failed_with, timed_out}
use hostingservices.Deploy.{
  RuntimeSpec, Settings, proxy_enabled, candidate_host_port, create_and_start, check_health,
  verdict, hand_over, checked, with_candidate, deploy_over, deploy_runtime, find_active_container,
}
use hostingservices.Deploy.Daemon.{
  Container, World, Error, Outcome, ok, throw, Faults, Removal, gone, only_stopped, untouched,
  remove_container, removed, set_running, inspect_calls, bind-throw, attempt, start_calls,
  attempt-state, clean-throw, on_error, list_calls,
}
use hostingservices.Deploy.Binds.{safe_volume_binds}

-- The containers of another name.
abbrev pub others : String → List Container → List Container
others name = keep (λ (c : Container). not (str_eq c.name name))

-- Nothing but containers of that name differs.
pub record IsKept (name : String) (w v : World) : Type 0 where
  pub containers : others name v.containers ≡ others name w.containers
  pub routes : v.routes ≡ w.routes

module _ (name : String) where
  others-append :
      (c : Container) (cs : List Container)
      → c.name ≡ name
      → others name (cs ++ c ∷ []) ≡ others name cs
  others-append c [] e = ground (arith, eq_iff c.name name)
  others-append c (d ∷ cs) e = ground (arith, others-append c cs e)

  others-set_running :
      (b : Bool) (cs : List Container) → others name (map (set_running name b) cs) ≡ others name cs
  others-set_running b [] = refl
  others-set_running b (d ∷ cs) = ground (arith, others-set_running b cs)

  others-others : (cs : List Container) → others name (others name cs) ≡ others name cs
  others-others [] = refl
  others-others (d ∷ cs) = ground (arith, others-others cs)

  removed-IsKept : (r : Removal) (w : World) → IsKept name w (removed r name w)
  removed-IsKept gone w = ground (arith, others-others w.containers)
  removed-IsKept only_stopped w = ground (arith, others-set_running false w.containers)
  removed-IsKept untouched w = record { containers = refl; routes = refl }

  remove-IsKept : (f : Faults) (w : World) → IsKept name w (remove_container f name w)
  unfolding remove_container
  remove-IsKept f w = removed-IsKept (f.removal name) w

-- A call that ends, in whichever way, in a state that is kept.
abbrev pub KeptBy : {A : Type 0} → String → World → Outcome A → Type 0
KeptBy name w (ok a v) = IsKept name w v
KeptBy name w (throw e v) = IsKept name w v

create_and_start-KeptBy :
    (s : Settings) (f : Faults) (spec : RuntimeSpec) (candidate : String) (port : Option ℕ)
    (w : World)
    → KeptBy candidate w (create_and_start s f spec candidate port w)
unfolding create_and_start
create_and_start-KeptBy s f spec candidate port w =
    let c : Container = record {
      name = candidate;
      runtime = spec.name;
      image = spec.image;
      running = false;
      published = port;
    } in
    ground (
      arith,
      others-append candidate c w.containers refl,
      others-set_running candidate true (w.containers ++ c ∷ []),
    )

-- The health check changes nothing.
verdict-state :
    (r : Option Result) (w v : World)
    → ((c : Check) → verdict r w ≡ ok c v → v ≡ w) × ((e : Error) → verdict r w ≡ throw e v → v ≡ w)
verdict-state none w v = (λ c h. cc, λ e h. cc)
verdict-state (some (is_healthy c)) w v = (λ c' h. cc, λ e h. cc)
verdict-state (some (failed_with x)) w v = (λ c h. cc, λ e h. cc)
verdict-state (some (timed_out x)) w v = (λ c h. cc, λ e h. cc)

-- The hand-over fails only in a state that is kept, unless it is the renaming that fails.
hand_over-throw :
    (s : Settings) (f : Faults) (spec : RuntimeSpec) (candidate : String)
    (previous : Option Container) (c : Check) (w v : World) (e : Error)
    → (proxy_enabled s spec ≡ true) ⊎ (f.renames ≡ true)
    → hand_over s f spec candidate previous c w ≡ throw e v
    → v ≡ w
unfolding hand_over
hand_over-throw s f spec candidate previous c w v e h t = ground arith

checked-throw :
    (s : Settings) (f : Faults) (attempts : ℕ → Attempt) (spec : RuntimeSpec) (candidate : String)
    (previous : Option Container) (w v : World) (e : Error)
    → (proxy_enabled s spec ≡ true) ⊎ (f.renames ≡ true)
    → checked s f attempts spec candidate previous w ≡ throw e v
    → v ≡ w
unfolding checked check_health
checked-throw s f attempts spec candidate previous w v e h t =
    elim (bind-throw (verdict _ w) (hand_over s f spec candidate previous) t) [
      | inl y ↦ (verdict-state _ w v).1 e y
      | inr (c, u, p, q) ↦
          hand_over-throw s f spec candidate previous c u v e h q ∙ (verdict-state _ w u).0 c p
    ]

with_candidate-throw :
    (s : Settings) (f : Faults) (attempts : ℕ → Attempt) (spec : RuntimeSpec) (candidate : String)
    (previous : Option Container) (w v : World) (e : Error)
    → (proxy_enabled s spec ≡ true) ⊎ (f.renames ≡ true)
    → with_candidate s f attempts spec candidate previous w ≡ throw e v
    → v ≡ w
unfolding with_candidate
with_candidate-throw s f attempts spec candidate previous w v e h t =
    let inspecting = attempt f.inspects inspect_calls w in
    elim (bind-throw inspecting (λ _. checked s f attempts spec candidate previous) t) [
      | inl x ↦ (attempt-state f.inspects inspect_calls w).1 e v x
      | inr (x, u, p, q) ↦
          checked-throw s f attempts spec candidate previous u v e h q
          ∙ (attempt-state f.inspects inspect_calls w).0 x u p
    ]

IsKept-trans : {name : String} {u v w : World} → IsKept name u v → IsKept name v w → IsKept name u w
IsKept-trans h k = record { containers = k.containers ∙ h.containers; routes = k.routes ∙ h.routes }

deploy_over-throw :
    (s : Settings) (f : Faults) (attempts : ℕ → Attempt) (spec : RuntimeSpec) (candidate : String)
    (previous : Option Container) (w v : World) (e : Error)
    → (proxy_enabled s spec ≡ true) ⊎ (f.renames ≡ true)
    → deploy_over s f attempts spec candidate previous w ≡ throw e v
    → IsKept candidate w v
unfolding deploy_over
deploy_over-throw s f attempts spec candidate previous w v e h t =
    let port = candidate_host_port s spec previous in
    let kept = create_and_start-KeptBy s f spec candidate port w in
    let body = with_candidate s f attempts spec candidate previous in
    let creating = create_and_start s f spec candidate port w in
    elim (bind-throw creating (λ _. on_error (remove_container f candidate) body) t) [
      | inl x ↦ subst (KeptBy candidate w) x kept
      | inr (x, u, p, q) ↦
          let (u', r, e') = clean-throw (remove_container f candidate) (body u) q in
          let same = with_candidate-throw s f attempts spec candidate previous u u' e h r in
          IsKept-trans (subst (KeptBy candidate w) p kept)
            (rw (e', same) (remove-IsKept candidate f u))
    ]

-- A deployment that fails, with the proxy on or no failure of the renaming, changes no container
-- but those named like its candidate, and no route: what ran before goes on and keeps its traffic.
pub deploy_runtime-throw :
    (s : Settings) (f : Faults) (attempts : ℕ → Attempt) (spec : RuntimeSpec) (candidate : String)
    (w v : World) (e : Error)
    → (proxy_enabled s spec ≡ true) ⊎ (f.renames ≡ true)
    → deploy_runtime s f attempts spec candidate w ≡ throw e v
    → IsKept candidate w v
unfolding deploy_runtime
deploy_runtime-throw s f attempts spec candidate w v e h t =
    let over = λ (u : World).
      deploy_over s f attempts spec candidate (find_active_container spec.name u.containers) u in
    elim (bind-throw (attempt f.lists list_calls w) (λ _. over) t) [
      | inl x ↦
          subst (IsKept candidate w) (sym ((attempt-state f.lists list_calls w).1 e v x))
            (record { containers = refl; routes = refl })
      | inr (x, u, p, q) ↦
          let same = (attempt-state f.lists list_calls w).0 x u p in
          subst (λ z. IsKept candidate z v) same
            (deploy_over-throw s f attempts spec candidate
              (find_active_container spec.name u.containers) u v e h q)
    ]

-- A container that is created and cannot be started is left behind, not running: the deployment
-- throws before the candidate is known, so that nothing removes it.
pub start_failure-leaves :
    (s : Settings) (f : Faults) (attempts : ℕ → Attempt) (spec : RuntimeSpec) (candidate : String)
    (w : World)
    → f.lists ≡ true
    → f.networks ≡ true
    → f.creates ≡ true
    → f.starts ≡ false
    → safe_volume_binds s.production s.allow_host_binds spec.volume_binds ≡ none
    → (c : Container) × (deploy_runtime s f attempts spec candidate w
        ≡ throw start_calls (record w { containers = w.containers ++ c ∷ [] }))
      × (c.name ≡ candidate)
      × (c.running ≡ false)
unfolding deploy_runtime deploy_over create_and_start
start_failure-leaves s f attempts spec candidate w l n c t b =
    let previous = find_active_container spec.name w.containers in
    (
      record {
        name = candidate;
        runtime = spec.name;
        image = spec.image;
        running = false;
        published = candidate_host_port s spec previous;
      },
      ground arith,
      refl,
      refl,
    )
