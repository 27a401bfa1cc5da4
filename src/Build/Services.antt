-- ===== src/Build/Services.antt =====
-- Which service of a monorepo apps/engine/src/build.ts builds.
use Prim.Native.String.{◌++◌ as ◌+++◌}
use hostingservices.Common.{
  In-keep, true, String, false, none, some, List, [], ◌∷◌, ◌≡◌, ◌≢◌, ◌⊎◌, refl, ap, find,
  find_sound, map, In, str_eq, eq_iff, arith, Bool-cases, Option-cases, inl, inr,
}
use hostingservices.Build.Detecting.{
  Entry, Checkout, Detection, is_candidate, found, no_service, candidates, name_of, has_name,
  service_at, asked_for, find_service, of_services, detect_dockerfile,
}

In-map : (es : List Entry) (e : Entry) → In e es → In e.name (map name_of es)
In-map (x ∷ es) e (inl k) = inl (ap name_of k)
In-map (x ∷ es) e (inr i) = inr (In-map es e i)
In-map [] e i = absurd i

-- No entry has the name.
not_found :
    (name : String) (es : List Entry)
    → find (has_name name) es ≡ none
    → In name (map name_of es)
    → ⊥
not_found name [] h i = i
not_found name (e ∷ es) h (inl k) = ground (arith, eq_iff e.name name)
not_found name (e ∷ es) h (inr i) = elim (Bool-cases (str_eq e.name name)) [
  | inl k ↦ ground (arith, k)
  | inr k ↦ not_found name es (ground (arith, k)) i
]

-- The service of the name, if the services have it.
requested_service :
    (lower_case : String → String) (c : Checkout) (s : String)
    → c.has_file "Dockerfile" ≡ false
    → candidates c ≢ []
    → s ≢ ""
    → ((e : Entry) × In e (candidates c)
        × (e.name ≡ s)
        × (detect_dockerfile lower_case c (some s) ≡ found (service_at c (candidates c) e)))
      ⊎ ((In s (map name_of (candidates c)) → ⊥)
          × (detect_dockerfile lower_case c (some s) ≡ no_service s (map name_of (candidates c))))
unfolding detect_dockerfile
requested_service lower_case c s root some_service n =
    rw root (requested (candidates c) some_service)
  where
    asked : asked_for (some s) ≡ some s
    asked = ground (arith, eq_iff s "")

    requested :
        (es : List Entry)
        → es ≢ []
        → ((e : Entry) × In e es
            × (e.name ≡ s)
            × (of_services lower_case c (some s) es ≡ found (service_at c es e)))
          ⊎ ((In s (map name_of es) → ⊥)
              × (of_services lower_case c (some s) es ≡ no_service s (map name_of es)))
    requested [] h = absurd (h refl)
    requested (e ∷ es) h = rw asked (elim (Option-cases (find (has_name s) (e ∷ es))) [
      | inl k ↦ inr (not_found s (e ∷ es) k, ap (find_service c (e ∷ es) s) k)
      | inr (x, k) ↦
          let sound = find_sound (has_name s) (e ∷ es) k in
          inl (x, sound.1, (eq_iff x.name s).0 sound.0, ap (find_service c (e ∷ es) s) k)
    ])

-- The entry is a directory of the repository with a Dockerfile, and `x` is what is built from it.
pub record IsService (c : Checkout) (s : String) (e : Entry) (x : Detection) : Type 0 where
  pub entry : In e c.entries
  pub directory : e.is_directory ≡ true
  pub dockerfile : e.has_dockerfile ≡ true
  pub name : e.name ≡ s
  pub service : x.service ≡ some s
  pub context_dir : x.context_dir ≡ c.dir +++ ("/" +++ s)
  pub dockerfile_path : x.dockerfile_path ≡ (c.dir +++ ("/" +++ s)) +++ "/Dockerfile"
  pub available : x.available_services ≡ some (map name_of (candidates c))
  pub written : x.generated ≡ false

candidate-parts :
    (e : Entry) → is_candidate e ≡ true → (e.is_directory ≡ true) × (e.has_dockerfile ≡ true)
candidate-parts e h = (ground arith, ground arith)

candidate-IsService :
    (c : Checkout) (s : String) (e : Entry)
    → In e (candidates c)
    → e.name ≡ s
    → IsService c s e (service_at c (candidates c) e)
unfolding candidates
candidate-IsService c s e i n =
    let (candidate, entry) = In-keep is_candidate c.entries i in
    let (directory, dockerfile) = candidate-parts e candidate in
    record {
      entry = entry;
      directory = directory;
      dockerfile = dockerfile;
      name = n;
      service = ap some n;
      context_dir = ap (λ m. c.dir +++ ("/" +++ m)) n;
      dockerfile_path = ap (λ m. (c.dir +++ ("/" +++ m)) +++ "/Dockerfile") n;
      available = refl;
      written = refl;
    }

-- Of a repository without a Dockerfile at its root and with services, a build that asks for one
-- gets the directory of this name, which has a Dockerfile, as its context and the Dockerfile in
-- this directory, if the services have the name, and else the error that names them all.
pub detect_dockerfile-requested :
    (lower_case : String → String) (c : Checkout) (s : String)
    → c.has_file "Dockerfile" ≡ false
    → candidates c ≢ []
    → s ≢ ""
    → ((e : Entry) × (x : Detection) × (detect_dockerfile lower_case c (some s) ≡ found x)
        × IsService c s e x)
      ⊎ ((In s (map name_of (candidates c)) → ⊥)
          × (detect_dockerfile lower_case c (some s) ≡ no_service s (map name_of (candidates c))))
detect_dockerfile-requested lower_case c s root some_service n =
    elim (requested_service lower_case c s root some_service n) [
      | inr r ↦ inr r
      | inl (e, i, named, h) ↦
          inl (e, service_at c (candidates c) e, h, candidate-IsService c s e i named)
    ]
