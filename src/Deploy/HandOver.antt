-- ===== src/Deploy/HandOver.antt =====
-- What the steps of a deployment of apps/engine/src/deploy.ts leave running: the start of the
-- candidate, the removal of the previous container and the hand-over of the traffic or the name.
use hostingservices.Common.Texts.{text}
use hostingservices.Router.{safe, file_of, write_file, file_of-write_file}
use hostingservices.Common.{
  ℕ, String, Bool, true, false, Option, none, some, List, [], ◌∷◌, ◌++◌, ◌≡◌, ◌≢◌, ◌⊎◌, refl, sym,
  ap, ◌∙◌, not, str_eq, eq_iff, keep, ◌&&◌, find, find_sound, In-keep, arith, map, inl, inr,
  Bool-cases, if◌then◌else◌, subst, In, keep-In,
}
use hostingservices.Health.{Check, Result, is_healthy, failed_with, timed_out, includes}
use hostingservices.Deploy.{
  RuntimeSpec, Settings, proxy_enabled, create_and_start, verdict, hand_over, via_proxy, via_rename,
  Deployed, find_active_container, remove_previous, or_other,
}
use hostingservices.Deploy.Daemon.{
  Container, World, ok, Faults, Removal, gone, only_stopped, untouched, remove_container, removed,
  set_running, set_name,
}

-- A container of the name runs the image.
abbrev pub Runs : String → String → List Container → Type 0
Runs name image cs =
    (c : Container) × In c cs × (c.name ≡ name) × (c.image ≡ image) × (c.running ≡ true)

In-map :
    (f : Container → Container) (cs : List Container) (c : Container)
    → In c cs
    → In (f c) (map f cs)
In-map f [] c h = absurd h
In-map f (d ∷ cs) c (inl e) = inl (ap f e)
In-map f (d ∷ cs) c (inr h) = inr (In-map f cs c h)

In-append_right : (c : Container) (cs : List Container) → In c (cs ++ c ∷ [])
In-append_right c [] = inl refl
In-append_right c (d ∷ cs) = inr (In-append_right c cs)

-- A candidate that is created and started runs the image, and no route has changed.
pub create_and_start-Runs :
    (s : Settings) (f : Faults) (spec : RuntimeSpec) (candidate : String) (port : Option ℕ)
    (w v : World)
    → create_and_start s f spec candidate port w ≡ ok tt v
    → Runs candidate spec.image v.containers × (v.routes ≡ w.routes)
unfolding create_and_start
create_and_start-Runs s f spec candidate port w v h =
    let c : Container = record {
      name = candidate;
      runtime = spec.name;
      image = spec.image;
      running = false;
      published = port;
    } in
    let e : v
        ≡ record w { containers = map (set_running candidate true) (w.containers ++ c ∷ []) } =
      ground arith in
    let member =
      In-map (set_running candidate true) (w.containers ++ c ∷ []) c
        (In-append_right c w.containers) in
    rw e (
      (
        set_running candidate true c,
        member,
        ground (arith, eq_iff candidate candidate),
        ground arith,
        ground (arith, eq_iff candidate candidate),
      ),
      refl,
    )

-- The removal of a container of another name leaves a container as it is.
removed-In :
    (r : Removal) (name : String) (w : World) (c : Container)
    → c.name ≢ name
    → In c w.containers
    → In c (removed r name w).containers
removed-In gone name w c n i = keep-In _ w.containers i (ground (arith, eq_iff c.name name))
removed-In only_stopped name w c n i =
    subst (λ d. In d (map (set_running name false) w.containers))
      (ground (arith, eq_iff c.name name)) (In-map (set_running name false) w.containers c i)
removed-In untouched name w c n i = i

or_other-some :
    (a b : Option Container) (c : Container) → or_other a b ≡ some c → (a ≡ some c) ⊎ (b ≡ some c)
or_other-some none b c h = inr h
or_other-some (some a) b c h = inl h

removed-routes : (r : Removal) (name : String) (w : World) → (removed r name w).routes ≡ w.routes
removed-routes gone name w = refl
removed-routes only_stopped name w = refl
removed-routes untouched name w = refl

pub find_active_sound :
    (runtime : String) (cs : List Container) (c : Container)
    → find_active_container runtime cs ≡ some c
    → In c cs
unfolding find_active_container
find_active_sound runtime cs c h =
    let own = keep (λ (x : Container). str_eq x.runtime runtime) cs in
    let stable = λ (x : Container). x.running && not (includes x.name "-candidate-") in
    let running = λ (x : Container). x.running in
    let found : In c own = elim (or_other-some (find stable own) (find running own) c h) [
      | inl e ↦ (find_sound stable own e).1
      | inr e ↦ (find_sound running own e).1
    ] in
    (In-keep (λ x. str_eq x.runtime runtime) cs found).1

pub verdict-ok :
    (r : Option Result) (w v : World) (c : Check)
    → verdict r w ≡ ok c v
    → (r ≡ some (is_healthy c)) × (v ≡ w)
verdict-ok none w v c h = cc
verdict-ok (some (is_healthy c')) w v c h = (cc, cc)
verdict-ok (some (failed_with x)) w v c h = cc
verdict-ok (some (timed_out x)) w v c h = cc

-- The removal of the previous container leaves the candidate running, and the routes alone.
remove_previous-Runs :
    (f : Faults) (previous : Option Container) (name image : String) (w : World)
    → ((p : Container) → previous ≡ some p → name ≢ p.name)
    → Runs name image w.containers
    → Runs name image (remove_previous f previous w).containers
      × ((remove_previous f previous w).routes ≡ w.routes)
unfolding remove_container
remove_previous-Runs f none name image w n r = (r, refl)
remove_previous-Runs f (some p) name image w n (c, i, e, m, r) = (
  (c, removed-In (f.removal p.name) p.name w c (λ x. n p refl (sym e ∙ x)) i, e, m, r),
  removed-routes (f.removal p.name) p.name w,
)

-- The name that the deployment reports, and the router's file of the runtime's safe name.
abbrev pub Served : RuntimeSpec → String → World → World → Deployed → Bool → Type 0
Served spec candidate w v d true =
    (d.name ≡ candidate) × (file_of (safe (text spec.name)) v.routes ≡ some (candidate ∷ []))
Served spec candidate w v d false = (d.name ≡ spec.name) × (v.routes ≡ w.routes)

via_proxy-ok :
    (f : Faults) (spec : RuntimeSpec) (candidate : String) (previous : Option Container) (c : Check)
    (w v : World) (d : Deployed)
    → ((p : Container) → previous ≡ some p → candidate ≢ p.name)
    → Runs candidate spec.image w.containers
    → via_proxy f spec candidate previous c w ≡ ok d v
    → (d.health ≡ c) × Runs d.name spec.image v.containers × Served spec candidate w v d true
unfolding via_proxy
via_proxy-ok f spec candidate previous c w v d n r h =
    let routed : World = record w {
      routes = write_file (safe (text spec.name)) (candidate ∷ []) w.routes;
    } in
    let (runs, routes) = remove_previous-Runs f previous candidate spec.image routed n r in
    let e : v ≡ remove_previous f previous routed = ground arith in
    let k : d ≡ record { name = candidate; health = c; replaced = previous } = ground arith in
    rw (e, k)
      (
        refl,
        runs,
        (
          refl,
          ap (file_of (safe (text spec.name))) routes
              ∙ file_of-write_file (safe (text spec.name)) (candidate ∷ []) w.routes,
        ),
      )

In-renamed :
    (name to image : String) (cs : List Container)
    → Runs name image cs
    → Runs to image (map (set_name name to) cs)
In-renamed name to image cs (c, i, e, m, r) = (
  set_name name to c,
  In-map (set_name name to) cs c i,
  ground (arith, eq_iff c.name name),
  ground arith,
  ground arith,
)

via_rename-ok :
    (f : Faults) (spec : RuntimeSpec) (candidate : String) (previous : Option Container) (c : Check)
    (w v : World) (d : Deployed)
    → ((p : Container) → previous ≡ some p → candidate ≢ p.name)
    → Runs candidate spec.image w.containers
    → via_rename f spec candidate previous c w ≡ ok d v
    → (d.health ≡ c) × Runs d.name spec.image v.containers × Served spec candidate w v d false
unfolding via_rename
via_rename-ok f spec candidate previous c w v d n r h =
    let (runs, routes) = remove_previous-Runs f previous candidate spec.image w n r in
    let u = remove_previous f previous w in
    let e : v ≡ record u { containers = map (set_name candidate spec.name) u.containers } =
      ground arith in
    let k : d ≡ record { name = spec.name; health = c; replaced = previous } = ground arith in
    rw (e, k) (refl, In-renamed candidate spec.name spec.image u.containers runs, (refl, routes))

pub hand_over-ok :
    (s : Settings) (f : Faults) (spec : RuntimeSpec) (candidate : String)
    (previous : Option Container) (c : Check) (w v : World) (d : Deployed)
    → ((p : Container) → previous ≡ some p → candidate ≢ p.name)
    → Runs candidate spec.image w.containers
    → hand_over s f spec candidate previous c w ≡ ok d v
    → (d.health ≡ c)
      × Runs d.name spec.image v.containers
      × Served spec candidate w v d (proxy_enabled s spec)
unfolding hand_over
hand_over-ok s f spec candidate previous c w v d n r h = elim (Bool-cases (proxy_enabled s spec)) [
  | inl e ↦ rw e (via_proxy-ok f spec candidate previous c w v d n r (rw (e, if◌then◌else◌) at h))
  | inr e ↦ rw e (via_rename-ok f spec candidate previous c w v d n r (rw (e, if◌then◌else◌) at h))
]
