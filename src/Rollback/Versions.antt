-- ===== src/Rollback/Versions.antt =====
-- What the handler `versions` of apps/api/src/deployment-history.ts lists.
use hostingservices.Common.{
  String, Bool, true, false, some, List, [], ◌∷◌, ◌≡◌, ◌≢◌, inl, inr, refl, ap, ◌∙◌, sym, arith,
  map, keep, In-keep, ◌&&◌, &&-parts, str_eq, eq_iff, In, subst, not, Option-cases, Bool-cases,
}
use hostingservices.Database.{ready, is_ready, Deployment, Table, list_deployments, find_id}
use hostingservices.Database.Rows.{find_id_sound, In-list_deployments}
use hostingservices.Rollback.{clashes}
use hostingservices.Rollback.Listing.{service_of, Version, version_of, versions_of, versions, found}
use hostingservices.Rollback.Acceptance.{clashes_iff, IsAllowed, ready_of}

-- No two rows of the table have one id.
abbrev pub IsKeyed : Table → Type 0
IsKeyed t = (a b : Deployment) → In a t → In b t → a.id ≡ b.id → a ≡ b

In-map :
    (f : Deployment → Version) (ds : List Deployment) {v : Version}
    → In v (map f ds)
    → (d : Deployment) × In d ds × (f d ≡ v)
In-map f [] h = absurd h
In-map f (x ∷ xs) (inl e) = (x, inl refl, e)
In-map f (x ∷ xs) (inr h) = let (d, i, e) = In-map f xs h in (d, inr i, e)

find_id-keyed :
    (ds : List Deployment) {d : Deployment}
    → ((a b : Deployment) → In a ds → In b ds → a.id ≡ b.id → a ≡ b)
    → In d ds
    → find_id d.id ds ≡ some d
find_id-keyed [] k h = absurd h
find_id-keyed (x ∷ xs) {d} k h = elim (Bool-cases (str_eq x.id d.id)) [
  | inl e ↦ rw e (ap some (k x d (inl refl) h ((eq_iff x.id d.id).0 e)))
  | inr e ↦ elim h [
    | inl p ↦ ground (arith, eq_iff x.id d.id, p)
    | inr i ↦ rw e (find_id-keyed xs (λ a b m n. k a b (inr m) (inr n)) i)
  ]
]

-- What a listed version tells of the row it stands for.
record IsListed (c d : Deployment) (ds : List Deployment) : Type 0 where
  pub row : In d ds
  pub project : d.project_id ≡ c.project_id
  pub healthy : d.status ≡ ready
  pub repo : clashes c.repo d.repo ≡ false

versions_of-IsListed :
    (c : Deployment) (ds : List Deployment) {v : Version}
    → In v (versions_of c ds)
    → (d : Deployment) × IsListed c d ds × (version_of c d ≡ v)
unfolding versions_of
versions_of-IsListed c ds {v} h =
    let same = λ (d : Deployment). str_eq d.project_id c.project_id && is_ready d.status in
    let agrees = λ (d : Deployment). not (clashes c.repo d.repo) in
    let serves = λ (d : Deployment). not (clashes (service_of c) (service_of d)) in
    let (d, i, e) = In-map (version_of c) (keep serves (keep agrees (keep same ds))) h in
    let s = In-keep serves (keep agrees (keep same ds)) i in
    let r = In-keep agrees (keep same ds) s.1 in
    let p = In-keep same ds r.1 in
    let q = &&-parts (str_eq d.project_id c.project_id) (is_ready d.status) p.0 in
    (
      d,
      record {
        row = p.1;
        project = (eq_iff d.project_id c.project_id).0 q.0;
        healthy = ready_of d.status q.1;
        repo = ground (arith, r.0);
      },
      e,
    )

versions-found :
    (u : Bool) (id i : String) (t : Table) (vs : List Version)
    → versions u id t ≡ found i vs
    → (u ≡ true)
      × ((c : Deployment) × (find_id id (list_deployments t) ≡ some c)
          × (versions_of c (list_deployments t) ≡ vs))
unfolding versions
versions-found u id i t vs h = elim (Bool-cases u) [
  | inl e ↦ elim (Option-cases (find_id id (list_deployments t))) [
    | inl f ↦ ground (arith, f)
    | inr (c, f) ↦ (e, (c, f, ground (arith, f)))
  ]
  | inr e ↦ ground arith
]

-- Every version that the handler lists is one that the deployment can be rolled back to, if the
-- deployment is healthy, the version is not the current one and has an image, and no two rows have
-- one id: the request that names it passes the checks of `rollback-to`.
pub versions-IsAllowed :
    (u : Bool) (id i : String) (t : Table) (vs : List Version) (v : Version) (c : Deployment)
    → versions u id t ≡ found i vs
    → IsKeyed t
    → find_id id (list_deployments t) ≡ some c
    → c.status ≡ ready
    → In v vs
    → v.current ≡ false
    → v.image ≢ ""
    → (d : Deployment) × (d.id ≡ v.id) × IsAllowed u id (some v.id) t c d
versions-IsAllowed u id i t vs v c h k hc s m n o =
    let ds = list_deployments t in
    let (user, (b, hb, e)) = versions-found u id i t vs h in
    let same : b ≡ c = cc in
    let (d, l, w) =
      versions_of-IsListed c ds
        (subst (λ x. In v (versions_of x ds)) same (subst (λ x. In v x) (sym e) m)) in
    let at = ap (λ x. x.id) w in
    let image : d.image ≡ v.image = ap (λ x. x.image) w in
    let is_other : str_eq d.id c.id ≡ false = ap (λ x. x.current) w ∙ n in
    let named = (find_id_sound id ds hc).0 in
    let keyed : (a b : Deployment) → In a ds → In b ds → a.id ≡ b.id → a ≡ b =
      λ a b p q. k a b ((In-list_deployments t a).0 p) ((In-list_deployments t b).0 q) in
    let is_found = find_id-keyed ds keyed l.row in
    (
      d,
      at,
      record {
        user = user;
        names = ap some (sym at);
        other = λ x. ground (arith, eq_iff d.id c.id);
        is_current = hc;
        is_found = is_found;
        is_target = record {
          was_ready = s;
          is_healthy = l.healthy;
          project = l.project;
          repo = (clashes_iff c.repo d.repo).0 l.repo;
          image = λ x. o (sym image ∙ x);
        };
      },
    )
