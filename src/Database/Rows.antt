-- ===== src/Database/Rows.antt =====
-- What the listing and the update of apps/api/src/db.ts do to the rows.
use hostingservices.Common.{
  String, Option, some, List, [], ◌∷◌, ◌≡◌, ◌↔◌, inl, inr, refl, ap, map, arith, str_eq, eq_iff,
  Bool-cases, ◌∙◌, insert_by, In, find_sound, sort_by, In-sort_by,
}
use hostingservices.Database.{
  Status, Runtime, Deployment, Table, list_deployments, is_newer, set_status, update_deployment,
  find_id,
}

-- A row is listed exactly if it is in the table.
pub In-list_deployments :
    (table : Table) (d : Deployment) → In d (list_deployments table) ↔ In d table
unfolding list_deployments
In-list_deployments table d = In-sort_by is_newer table d

-- A row that is found by its id has it, and is in the list.
pub find_id_sound :
    (id : String) (ds : List Deployment) {d : Deployment}
    → find_id id ds ≡ some d
    → (d.id ≡ id) × In d ds
find_id_sound id ds {d} h =
    let s = find_sound (λ (x : Deployment). str_eq x.id id) ds h in ((eq_iff d.id id).0 s.0, s.1)

-- The update changes the rows of the id, and no other.
pub In-update :
    (id : String) (status : Status) (runtime : Option Runtime) (table : Table) (d : Deployment)
    → In d table
    → In (set_status id status runtime d) (update_deployment id status runtime table)
unfolding update_deployment
In-update id status runtime [] d h = h
In-update id status runtime (x ∷ xs) d (inl e) = inl (ap (set_status id status runtime) e)
In-update id status runtime (x ∷ xs) d (inr h) = inr (In-update id status runtime xs d h)

map-insert_by :
    (f : Deployment → Deployment)
    → ((a b : Deployment) → is_newer (f a) (f b) ≡ is_newer a b)
    → (d : Deployment) (ds : List Deployment)
    → insert_by is_newer (f d) (map f ds) ≡ map f (insert_by is_newer d ds)
unfolding insert_by
map-insert_by f k d [] = refl
map-insert_by f k d (x ∷ xs) = elim (Bool-cases (is_newer d x)) [
  | inl e ↦ rw (k d x, e) refl
  | inr e ↦ rw (k d x, e) (ap (λ ys. f x ∷ ys) (map-insert_by f k d xs))
]

map-sort_by :
    (f : Deployment → Deployment)
    → ((a b : Deployment) → is_newer (f a) (f b) ≡ is_newer a b)
    → (ds : List Deployment) → sort_by is_newer (map f ds) ≡ map f (sort_by is_newer ds)
unfolding sort_by
map-sort_by f k [] = refl
map-sort_by f k (x ∷ xs) =
    ap (insert_by is_newer (f x)) (map-sort_by f k xs) ∙ map-insert_by f k x (sort_by is_newer xs)

set_status-created_at :
    (id : String) (status : Status) (runtime : Option Runtime) (d : Deployment)
    → (set_status id status runtime d).created_at ≡ d.created_at
set_status-created_at id status runtime d = ground arith

-- The listing of an updated table is the updated listing.
pub list_deployments-update :
    (id : String) (status : Status) (runtime : Option Runtime) (table : Table)
    → list_deployments (update_deployment id status runtime table)
      ≡ map (set_status id status runtime) (list_deployments table)
unfolding list_deployments update_deployment
list_deployments-update id status runtime table =
    let at = set_status-created_at id status runtime in
    map-sort_by (set_status id status runtime) (λ a b. rw (at a, at b) refl) table

-- A row is found in the updated rows as the update of the row that was found.
pub find_id-update :
    (id j : String) (status : Status) (runtime : Option Runtime) (ds : List Deployment)
    {d : Deployment}
    → find_id j ds ≡ some d
    → find_id j (map (set_status id status runtime) ds) ≡ some (set_status id status runtime d)
find_id-update id j status runtime [] h = cc
find_id-update id j status runtime (x ∷ xs) {d} h =
    ground (arith, find_id-update id j status runtime xs {d = d})
